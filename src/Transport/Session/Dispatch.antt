-- ===== src/Transport/Session/Dispatch.antt =====
-- `Session::receive` and `Session::dispatch`: what frames of the peer do.
use Prim.Native.Nat.{bit_and}
use Prim.Native.String.{String}
use pipe_shell_x.Base.{
  ℕ, ◌+◌, ◌-◌, ◌%◌, ◌^◌, ◌∷◌, [], List, none, some, Bool, true, not, ◌&&◌, ◌||◌, Bytes, length, ltb,
  ◌==◌, if◌then◌else◌,
}
use pipe_shell_x.Base.Errors.{Result, ok, err, error_of, other}
use pipe_shell_x.Base.Words.{add32}
use pipe_shell_x.Stream.Credit.{on_data}
use pipe_shell_x.Transport.Frame.{
  Frame, FrameType, frame_type, open_frame, data_frame, window_update, exit_frame, ping, pong,
  go_away, unknown, push,
}
use pipe_shell_x.Transport.Control.{decode_exit, decode_window_update}
use pipe_shell_x.Transport.Open.{decode_open}
use pipe_shell_x.Transport.Session.State
use pipe_shell_x.Transport.Session.State.{
  Role, controller, node, Channel, stdout, stderr, Stream, Session, create_stream, find, assign,
  erase, try_emplace, tell, send, put, max_stream_window,
}
use pipe_shell_x.Transport.Session.Flush.{flush_stream, flag_end_stream, flag_stderr}
use pipe_shell_x.Transport.Session.Calls.{is_controller, plain_frame}

-- The result of a dispatch, and the session left.
abbrev pub Dispatched : Type 0
Dispatched = Result (Unit {0}) × Session

-- `protocolError`, returned.
abbrev pub violation : String → Session → Dispatched
violation what s = (err (error_of other what), s)

abbrev pub fine : Session → Dispatched
fine s = (ok tt, s)

-- `validateConnectionFrame`, and then the rest.
unfoldable pub connection_frame : Frame → Session → Session → Dispatched
connection_frame f s next =
    if not (f.stream_id == 0) || not (f.flags == 0) || not (length f.payload == 0)
    then violation "connection frame must have stream 0, flags 0, and an empty payload" s
    else fine next

-- `validateStreamFrame`, and then the rest. `allowed` is a byte.
unfoldable pub stream_frame : Frame → ℕ → Session → Dispatched → Dispatched
stream_frame f allowed s next =
    if f.stream_id == 0
    then violation "stream frame must have a nonzero stream id" s
    else if not (bit_and f.flags (255 - allowed) == 0)
    then violation "frame contains unknown or reserved flags" s
    else next

abbrev pub has_flag : Frame → ℕ → Bool
has_flag f flag = not (bit_and f.flags flag == 0)

-- The `Open` case, its frame validated.
unfoldable pub dispatch_open : Frame → Session → Dispatched
dispatch_open f s =
    if is_controller s.role
    then violation "OPEN received by a controller" s
    else if s.sent_go_away || s.received_go_away
    then violation "OPEN received after GOAWAY" s
    else if not (f.stream_id == s.next_peer_stream_id)
    then violation "OPEN stream ids must be strictly sequential" s
    else elim (decode_open f.payload) [
      | err e ↦ (err e, s)
      | ok request ↦ fine (
          tell (State.on_open f.stream_id request) (record s {
            next_peer_stream_id = if f.stream_id == 2 ^ 32 - 1 then 0 else add32 f.stream_id 1;
            streams = try_emplace f.stream_id (create_stream s.initial_window) s.streams;
          }))
    ]

-- A DATA frame on a stream that this end has closed.
unfoldable pub data_closed : Frame → Bool → Session → Dispatched
data_closed f peer_data_closed s =
    if peer_data_closed
    then violation "DATA received after END_STREAM" s
    else if has_flag f flag_end_stream
    then fine (record s { locally_closed = assign f.stream_id true s.locally_closed })
    else fine s

-- A DATA frame on the stream `st`.
unfoldable pub data_on : Frame → Stream → Session → Dispatched
data_on f st s =
    if st.peer_data_closed
    then violation "DATA received after END_STREAM" s
    else (let (accepted, window) = on_data (length f.payload % 2 ^ 32) st.recv_window in
        let ended = has_flag f flag_end_stream in
        if accepted
        then fine (
            tell
              (State.on_data f.stream_id f.payload ended
                (if has_flag f flag_stderr then stderr else stdout))
              (put f.stream_id
                (record st {
                  recv_window = window;
                  peer_data_closed = if ended then true else st.peer_data_closed;
                })
                s))
        else violation "DATA exceeds the stream's flow-control window" s)

-- The `Data` case, its frame validated.
unfoldable pub dispatch_data : Frame → Session → Dispatched
dispatch_data f s =
    if not (is_controller s.role) && has_flag f flag_stderr
    then violation "controller DATA cannot select an output channel" s
    else elim (find f.stream_id s.locally_closed) [
      | some peer_data_closed ↦ data_closed f peer_data_closed s
      | none ↦ elim (find f.stream_id s.streams) [
        | none ↦ violation "DATA for an unknown or peer-closed stream" s
        | some st ↦ data_on f st s
      ]
    ]

-- The `Exit` case, its frame validated.
unfoldable pub dispatch_exit : Frame → Session → Dispatched
dispatch_exit f s =
    if not (is_controller s.role)
    then violation "EXIT received by a node" s
    else elim (decode_exit f.payload) [
      | err e ↦ (err e, s)
      | ok status ↦ elim (find f.stream_id s.streams) [
        | none ↦ violation "EXIT for an unknown stream" s
        | some st ↦ fine (
            tell (State.on_exit f.stream_id status)
              (record s { streams = erase f.stream_id s.streams }))
      ]
    ]

-- Credit for the stream `st`.
unfoldable pub credit_on : ℕ → ℕ → Stream → Session → Dispatched
credit_on id delta st s =
    if ltb max_stream_window (st.send_credit + delta)
    then violation "WINDOW_UPDATE overflows the stream flow-control window" s
    else (let st' = record st { send_credit = add32 st.send_credit delta } in
        fine (flush_stream id st' (put id st' s)))

-- The `WindowUpdate` case, its frame validated.
unfoldable pub dispatch_window_update : Frame → Session → Dispatched
dispatch_window_update f s = elim (decode_window_update f.payload) [
  | err e ↦ (err e, s)
  | ok delta ↦ elim (find f.stream_id s.streams) [
    | some st ↦ credit_on f.stream_id delta st s
    | none ↦ elim (find f.stream_id s.locally_closed) [
      | some closed ↦ fine s
      | none ↦ violation "WINDOW_UPDATE for an unknown or peer-closed stream" s
    ]
  ]
]

unfoldable pub dispatch_type : FrameType → Frame → Session → Dispatched
dispatch_type open_frame f s = stream_frame f 0 s (dispatch_open f s)
dispatch_type data_frame f s = stream_frame f 3 s (dispatch_data f s)
dispatch_type exit_frame f s = stream_frame f 1 s (dispatch_exit f s)
dispatch_type ping f s = connection_frame f s (send (plain_frame pong 0 []) s)
dispatch_type pong f s = connection_frame f s (tell State.on_pong s)
dispatch_type go_away f s =
    connection_frame f s (tell State.on_go_away (record s { received_go_away = true }))
dispatch_type window_update f s = stream_frame f 0 s (dispatch_window_update f s)
dispatch_type unknown f s = violation "unknown frame type" s

-- `dispatch`
unfoldable pub dispatch : Frame → Session → Dispatched
unfolding dispatch_type
dispatch f s = dispatch_type (frame_type f.type) f s

-- The sink of `receive` over the frames of a chunk: the first violation ends it.
unfoldable pub dispatch_all : List Frame → Session → Dispatched
dispatch_all [] s = fine s
dispatch_all (f ∷ fs) s =
    let (r, s') = dispatch f s in elim r [ ok u ↦ dispatch_all fs s' | err e ↦ (err e, s') ]

unfoldable pub fail : Session → Session
fail s = record s { protocol_failed = true }

-- The end of `receive`: an error of the decoder or of a frame fails the session.
unfoldable pub settle : Result (Unit {0}) → Dispatched → Dispatched
unfolding fail
settle (err e) (r, s) = (err e, fail s)
settle (ok u) (err e, s) = (err e, fail s)
settle (ok u) (ok v, s) = (ok v, s)

-- `receive`
unfoldable pub receive : Bytes → Session → Dispatched
unfolding settle
receive bytes s =
    if s.protocol_failed
    then violation "session poisoned by an earlier protocol error" s
    else (let (decoded, frames, decoder) = push bytes s.decoder in
        settle decoded (dispatch_all frames (record s { decoder = decoder })))
