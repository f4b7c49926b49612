-- ===== src/Transport/Session/Calls.antt =====
-- The calls that an application makes on a `Session`.
use pipe_shell_x.Base.{
  ℕ, ◌∷◌, ◌++◌, [], none, some, Bool, true, false, not, ◌&&◌, ◌||◌, Bytes, length, ltb, ◌==◌,
  if◌then◌else◌,
}
use pipe_shell_x.Base.Errors.{Result, ok, err}
use pipe_shell_x.Base.Words.{add32, add64}
use pipe_shell_x.Stream.Credit.{on_consumed}
use pipe_shell_x.Transport.Frame.{
  Frame, FrameType, to_byte, open_frame, window_update, ping, go_away,
}
use pipe_shell_x.Transport.Control.{ExitStatus, encode_window_update}
use pipe_shell_x.Transport.Open.{OpenRequest, validate_open_request, encode_open}
use pipe_shell_x.Transport.Session.State.{
  Role, controller, node, Channel, stdout, stderr, Stream, Session, create_stream, find,
  try_emplace, send, put, close_locally,
}
use pipe_shell_x.Transport.Session.Flush.{flush_stream, exit_frame_of}

unfoldable pub is_controller : Role → Bool
is_controller controller = true
is_controller node = false

unfoldable pub is_stdout : Channel → Bool
is_stdout stdout = true
is_stdout stderr = false

is_ok : Result (Unit {0}) → Bool
is_ok (ok a) = true
is_ok (err e) = false

-- A frame with no flags.
abbrev pub plain_frame : FrameType → ℕ → Bytes → Frame
plain_frame type id payload = record {
  type = to_byte type;
  flags = 0;
  stream_id = id;
  payload = payload;
}

-- `open`: the new stream's id, or 0.
unfoldable pub open_stream : OpenRequest → Session → ℕ × Session
unfolding is_ok is_controller
open_stream request s =
    if s.protocol_failed
      || not (is_controller s.role)
      || s.sent_go_away
      || s.received_go_away
      || s.next_stream_id == 0
      || not (is_ok (validate_open_request request))
    then (0, s)
    else (let id = s.next_stream_id in
        (
          id,
          send (plain_frame open_frame id (encode_open request)) (record s {
            next_stream_id = add32 id 1;
            streams = try_emplace id (create_stream s.initial_window) s.streams;
          }),
        ))

-- The bytes put behind the queue, and the end noted.
unfoldable pub enqueue : Bytes → Bool → Channel → Stream → Stream
enqueue bytes end_stream channel st =
    let queued = if length bytes == 0 then st else record st {
      send_queue = st.send_queue ++ record { channel = channel; bytes = bytes } ∷ [];
      send_bytes = add64 st.send_bytes (length bytes);
    } in
    if end_stream
    then record queued { local_data_closed = true; send_end_pending = true }
    else queued

-- `sendData`
unfoldable pub send_data : ℕ → Bytes → Bool → Channel → Session → Session
unfolding is_controller is_stdout
send_data id bytes end_stream channel s =
    if s.protocol_failed || (is_controller s.role && not (is_stdout channel))
    then s
    else elim (find id s.streams) [
      | none ↦ s
      | some st ↦
          if st.local_data_closed || st.exit_pending
          then s
          else flush_stream id (enqueue bytes end_stream channel st) s
    ]

-- `streamWritable`
pub stream_writable : ℕ → Session → Bool
stream_writable id s = elim (find id s.streams) [
  | none ↦ true
  | some st ↦ ltb st.send_bytes s.initial_window
]

-- `consume`
unfoldable pub consume : ℕ → ℕ → Session → Session
consume id n s = if s.protocol_failed then s else elim (find id s.streams) [
  | none ↦ s
  | some st ↦
      let (delta, window) = on_consumed n st.recv_window in
      let s' = put id (record st { recv_window = window }) s in
      if ltb 0 delta
      then send (plain_frame window_update id (encode_window_update delta)) s'
      else s'
]

-- Whether a stream has bytes or an end still to send.
unfoldable pub has_unsent : Stream → Bool
has_unsent st = elim st.send_queue [ [] ↦ st.send_end_pending | x ∷ xs ↦ true ]

-- `sendExit` for the stream `id`, whose value is `st`.
unfoldable pub exit_stream : ℕ → ExitStatus → Stream → Session → Session
unfolding has_unsent
exit_stream id status st s =
    let closing = record st { local_data_closed = true } in
    if has_unsent st
    then put id (record closing { exit_pending = true; exit_status = status }) s
    else close_locally id st.peer_data_closed
        (send (exit_frame_of id (record closing { exit_status = status })) (put id closing s))

-- `sendExit`
unfoldable pub send_exit : ℕ → ExitStatus → Session → Session
unfolding is_controller
send_exit id status s =
    if s.protocol_failed || is_controller s.role then s else elim (find id s.streams) [
      | none ↦ s
      | some st ↦ if st.exit_pending then s else exit_stream id status st s
    ]

-- `ping`
unfoldable pub send_ping : Session → Session
send_ping s = if s.protocol_failed then s else send (plain_frame ping 0 []) s

-- `goAway`
unfoldable pub send_go_away : Session → Session
send_go_away s =
    if s.protocol_failed || s.sent_go_away
    then s
    else send (plain_frame go_away 0 []) (record s { sent_go_away = true })

-- `onStreamWritable`
unfoldable pub notify_writable : Session → Session
notify_writable s = record s { notifies_writable = true }
