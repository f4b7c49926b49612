-- ===== src/Transport/Session/Laws.antt =====
-- A session that has failed, and what one session's frames do to its peer.
use pipe_shell_x.Base.{
  ℕ, ◌+◌, ◌-◌, ◌^◌, subst, List, ◌%◌, ◌≡◌, ◌≤◌, ◌<◌, refl, sym, ap, ◌∙◌, ◌∷◌, ◌++◌, [], none, some,
  Bool, true, false, Bytes, length, ◌==◌, if◌then◌else◌, arith, Bool-cases, ==_refl, inl, inr,
}
use pipe_shell_x.Base.Errors.{Result, ok, err, Error}
use pipe_shell_x.Base.Words.{add32}
use pipe_shell_x.Base.Int.{IsI32}
use pipe_shell_x.Stream.Credit.{on_data}
use pipe_shell_x.Stream.Credit.Laws.{IsValid, peer_credit, on_data-accepts}
use pipe_shell_x.Transport.Frame.{frame_type, to_byte, open_frame, push}
use pipe_shell_x.Transport.Control.{ExitStatus}
use pipe_shell_x.Transport.Control.RoundTrip.{decode_exit-encode_exit}
use pipe_shell_x.Transport.Open.{OpenRequest, validate_open_request, encode_open}
use pipe_shell_x.Transport.Open.RoundTrip.{decode_open-encode_open}
use pipe_shell_x.Transport.Session.State
use pipe_shell_x.Transport.Session.State.{
  Role, controller, node, Channel, stdout, stderr, Segment, Stream, Session, create_stream, find,
  assign, erase, try_emplace, tell, send, put,
}
use pipe_shell_x.Transport.Session.Flush.{frame_of, data_flags, channel_flag, exit_frame_of}
use pipe_shell_x.Transport.Session.Calls.{
  is_controller, plain_frame, open_stream, send_data, consume, send_exit, send_ping, send_go_away,
}
use pipe_shell_x.Transport.Session.Dispatch.{
  Dispatched, fine, violation, dispatch, dispatch_type, dispatch_open, dispatch_data, data_on,
  dispatch_exit, stream_frame, dispatch_all, receive, settle, fail,
}

-- Once a session has failed, no call writes anything or changes anything, and every chunk that arrives is refused.
pub failed_lem :
    (s : Session)
    → s.protocol_failed ≡ true
    → ((request : OpenRequest) → open_stream request s ≡ (0, s))
      × ((id : ℕ) (bytes : Bytes) (end_stream : Bool) (channel : Channel)
          → send_data id bytes end_stream channel s ≡ s)
      × ((id n : ℕ) → consume id n s ≡ s)
      × ((id : ℕ) (status : ExitStatus) → send_exit id status s ≡ s)
      × (send_ping s ≡ s)
      × (send_go_away s ≡ s)
      × ((bytes : Bytes)
          → receive bytes s ≡ violation "session poisoned by an earlier protocol error" s)
unfolding open_stream send_data consume send_exit send_ping send_go_away receive
failed_lem s e = (
  λ request. rw e refl,
  λ id bytes end_stream channel. rw e refl,
  λ id n. rw e refl,
  λ id status. rw e refl,
  rw e refl,
  rw e refl,
  λ bytes. rw e refl,
)

settle-fails :
    (r : Result (Unit {0})) (d : Dispatched) (e : Error)
    → (settle r d).0 ≡ err e
    → (settle r d).1.protocol_failed ≡ true
unfolding settle fail
settle-fails (err e') (r, s) e is_err = refl
settle-fails (ok u) (err e', s) e is_err = refl
settle-fails (ok u) (ok v, s) e is_err = cc

-- An error that `receive` returns leaves the session failed, so it is the last that is read.
pub receive-fails :
    (bytes : Bytes) (s : Session) (e : Error)
    → (receive bytes s).0 ≡ err e
    → (receive bytes s).1.protocol_failed ≡ true
unfolding receive
receive-fails bytes s e is_err = elim (Bool-cases s.protocol_failed) [
  | inl before ↦ simp before refl
  | inr after ↦
      let (decoded, frames, decoder) = push bytes s.decoder in
      let dispatched = dispatch_all frames (record s { decoder = decoder }) in
      let goes : receive bytes s ≡ settle decoded dispatched = simp after refl in
      ap (λ (d : Dispatched). d.1.protocol_failed) goes
      ∙ settle-fails decoded dispatched e (sym (ap (λ (d : Dispatched). d.0) goes) ∙ is_err)
]

-- A call of an application, or a chunk that arrives.
pub data Call : Type 0 where
  opens : OpenRequest → Call
  sends : ℕ → Bytes → Bool → Channel → Call
  consumes : ℕ → ℕ → Call
  exits : ℕ → ExitStatus → Call
  pings : Call
  goes_away : Call
  receives : Bytes → Call

pub play_one : Call → Session → Session
play_one (opens request) s = (open_stream request s).1
play_one (sends id bytes end_stream channel) s = send_data id bytes end_stream channel s
play_one (consumes id n) s = consume id n s
play_one (exits id status) s = send_exit id status s
play_one pings s = send_ping s
play_one goes_away s = send_go_away s
play_one (receives bytes) s = (receive bytes s).1

pub play : List Call → Session → Session
play [] s = s
play (call ∷ calls) s = play calls (play_one call s)

-- What `open` does where it is allowed.
open_stream_opens :
    (request : OpenRequest) (c : Session)
    → validate_open_request request ≡ ok tt
    → 0 < c.next_stream_id
    → c.role ≡ controller
    → c.protocol_failed ≡ false
    → c.sent_go_away ≡ false
    → c.received_go_away ≡ false
    → open_stream request c ≡ (
      c.next_stream_id,
      tell (State.wrote (plain_frame open_frame c.next_stream_id (encode_open request))) (record c {
        next_stream_id = add32 c.next_stream_id 1;
        streams = try_emplace c.next_stream_id (create_stream c.initial_window) c.streams;
      }),
    )
unfolding open_stream is_controller send
open_stream_opens request c valid positive role failed sent received =
    let nonzero : c.next_stream_id == 0 ≡ false = ground arith in
    simp (nonzero, valid, role, failed, sent, received) refl

-- The id after an OPEN is the next one of 32 bits on both ends.
next_id : (id : ℕ) → id < 2 ^ 32 → (if id == 2 ^ 32 - 1 then 0 else add32 id 1) ≡ add32 id 1
next_id id h = ground arith

dispatch_opens :
    (id : ℕ) (request : OpenRequest) (n : Session)
    → validate_open_request request ≡ ok tt
    → n.role ≡ node
    → n.sent_go_away ≡ false
    → n.received_go_away ≡ false
    → n.next_peer_stream_id ≡ id
    → 0 < id
    → id < 2 ^ 32
    → dispatch (plain_frame open_frame id (encode_open request)) n
      ≡ fine (
          tell (State.on_open id request) (record n {
            next_peer_stream_id = add32 id 1;
            streams = try_emplace id (create_stream n.initial_window) n.streams;
          }))
unfolding dispatch dispatch_type stream_frame dispatch_open is_controller frame_type to_byte
dispatch_opens id request n valid role sent received ids positive word =
    let nonzero : id == 0 ≡ false = ground arith in
    let same : id == n.next_peer_stream_id ≡ true = ap (λ k. id == k) ids ∙ ==_refl id in
    let after = next_id id word in
    let decoded = decode_open-encode_open request valid in
    simp (nonzero, role, sent, received, same, decoded, after) refl

-- The OPEN frame that a controller sends opens the same stream for the same request at a node that
-- expects the controller's next id, and the two agree on the id after it.
pub dispatch-open_stream :
    (request : OpenRequest) (c n : Session)
    → validate_open_request request ≡ ok tt
    → n.role ≡ node
    → n.sent_go_away ≡ false
    → n.received_go_away ≡ false
    → n.next_peer_stream_id ≡ c.next_stream_id
    → 0 < c.next_stream_id
    → c.next_stream_id < 2 ^ 32
    → c.role ≡ controller
    → c.protocol_failed ≡ false
    → c.sent_go_away ≡ false
    → c.received_go_away ≡ false
    → let (id, c') = open_stream request c in
      let f = plain_frame open_frame id (encode_open request) in
      let (r, n') = dispatch f n in
      (id ≡ c.next_stream_id)
      × (c'.log ≡ c.log ++ State.wrote f ∷ [])
      × (r ≡ ok tt)
      × (n'.log ≡ n.log ++ State.on_open id request ∷ [])
      × (n'.streams ≡ try_emplace id (create_stream n.initial_window) n.streams)
      × (n'.next_peer_stream_id ≡ c'.next_stream_id)
dispatch-open_stream request c n valid role sent received ids positive word role' failed' sent'
      received' =
    rw (open_stream_opens request c valid positive role' failed' sent' received') (
      rw (dispatch_opens c.next_stream_id request n valid role sent received ids positive word)
        (refl, refl, refl, refl, refl, refl))

dispatch_data_goes :
    (id : ℕ) (channel : Channel) (last : Bool) (payload : Bytes) (s : Session) (st : Stream)
    → s.role ≡ controller
    → 0 < id
    → find id s.locally_closed ≡ none
    → find id s.streams ≡ some st
    → st.peer_data_closed ≡ false
    → dispatch (frame_of id (data_flags channel last) payload) s
      ≡ data_on (frame_of id (data_flags channel last) payload) st s
unfolding frame_of data_flags channel_flag dispatch dispatch_type stream_frame dispatch_data
    is_controller frame_type to_byte
dispatch_data_goes id stdout true payload s st role positive unclosed here more =
    let nonzero : id == 0 ≡ false = ground arith in simp (nonzero, role, unclosed, here) refl
dispatch_data_goes id stdout false payload s st role positive unclosed here more =
    let nonzero : id == 0 ≡ false = ground arith in simp (nonzero, role, unclosed, here) refl
dispatch_data_goes id stderr true payload s st role positive unclosed here more =
    let nonzero : id == 0 ≡ false = ground arith in simp (nonzero, role, unclosed, here) refl
dispatch_data_goes id stderr false payload s st role positive unclosed here more =
    let nonzero : id == 0 ≡ false = ground arith in simp (nonzero, role, unclosed, here) refl

-- What a DATA frame leaves of the stream it came on.
abbrev pub took_data : ℕ → Bool → Stream → Stream
took_data n last st = record st {
  recv_window = (on_data (n % 2 ^ 32) st.recv_window).1;
  peer_data_closed = last;
}

data_on_delivers :
    (id : ℕ) (channel : Channel) (last : Bool) (payload : Bytes) (s : Session) (st : Stream)
    → st.peer_data_closed ≡ false
    → (on_data (length payload % 2 ^ 32) st.recv_window).0 ≡ true
    → let (r, s') = data_on (frame_of id (data_flags channel last) payload) st s in
      (r ≡ ok tt)
      × (s'.log ≡ s.log ++ State.on_data id payload last channel ∷ [])
      × (s'.streams ≡ assign id (took_data (length payload) last st) s.streams)
unfolding data_on frame_of data_flags channel_flag
data_on_delivers id stdout true payload s st more taken = simp (more, taken) (refl, refl, refl)
data_on_delivers id stdout false payload s st more taken = simp (more, taken) (refl, refl, refl)
data_on_delivers id stderr true payload s st more taken = simp (more, taken) (refl, refl, refl)
data_on_delivers id stderr false payload s st more taken = simp (more, taken) (refl, refl, refl)

find-assign :
    (id : ℕ) (st : Stream) (streams : List (ℕ × Stream)) → find id (assign id st streams) ≡ some st
unfolding find assign
find-assign id st [] = rw (==_refl id) refl
find-assign id st ((j, other) ∷ streams) = elim (Bool-cases (j == id)) [
  | inl here ↦ rw (here, ==_refl id) refl
  | inr elsewhere ↦ rw (elsewhere, elsewhere) (find-assign id st streams)
]

-- A DATA frame of output, made from a segment, reaches a controller that has granted credit for it
-- with its bytes, its channel and its end mark. It uses the credit of its stream up byte for byte, and its
-- end mark is noted.
pub dispatch-frame_of :
    (id : ℕ) (channel : Channel) (last : Bool) (payload : Bytes) (s : Session) (st : Stream)
    → s.role ≡ controller
    → 0 < id
    → find id s.locally_closed ≡ none
    → find id s.streams ≡ some st
    → st.peer_data_closed ≡ false
    → IsValid st.recv_window
    → length payload ≤ peer_credit st.recv_window
    → let (r, s') = dispatch (frame_of id (data_flags channel last) payload) s in
      (r ≡ ok tt)
      × (s'.log ≡ s.log ++ State.on_data id payload last channel ∷ [])
      × ((st' : Stream) × (find id s'.streams ≡ some st')
          × (peer_credit st'.recv_window + length payload ≡ peer_credit st.recv_window)
          × IsValid st'.recv_window
          × (st'.peer_data_closed ≡ last))
dispatch-frame_of id channel last payload s st role positive unclosed here more valid fits =
    let size : length payload % 2 ^ 32 ≡ length payload = omega (arith, fits, valid.word) in
    let (accepted, kept, paid) = on_data-accepts (length payload) st.recv_window valid fits in
    let taken : (on_data (length payload % 2 ^ 32) st.recv_window).0 ≡ true =
      ap (λ k. (on_data k st.recv_window).0) size ∙ accepted in
    let (fine, told, left) = data_on_delivers id channel last payload s st more taken in
    let st' = took_data (length payload) last st in
    rw (dispatch_data_goes id channel last payload s st role positive unclosed here more) (
      fine,
      told,
      (
        st',
        ap (find id) left ∙ find-assign id st' s.streams,
        ap (λ k. peer_credit (on_data k st.recv_window).1 + length payload) size ∙ paid,
        subst (λ k. IsValid (on_data k st.recv_window).1) (sym size) kept,
        refl,
      ),
    )

-- The EXIT frame of a stream tells a controller that has the stream its status, and removes it there.
pub dispatch-exit_frame_of :
    (id : ℕ) (st : Stream) (s : Session) (here : Stream)
    → s.role ≡ controller
    → 0 < id
    → IsI32 st.exit_status.code
    → find id s.streams ≡ some here
    → dispatch (exit_frame_of id st) s
      ≡ (ok tt, tell (State.on_exit id st.exit_status) (record s { streams = erase id s.streams }))
unfolding exit_frame_of dispatch dispatch_type stream_frame dispatch_exit is_controller frame_type
    to_byte
dispatch-exit_frame_of id st s here role positive i32 e =
    let nonzero : id == 0 ≡ false = ground arith in
    simp (nonzero, role, decode_exit-encode_exit st.exit_status i32, e) refl
