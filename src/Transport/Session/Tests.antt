-- ===== src/Transport/Session/Tests.antt =====
-- Sessions at concrete inputs.
use pipe_shell_x.Stream.Credit.Laws.{IsValid, peer_credit}
use pipe_shell_x.Base.{◌+◌, some, ◌≡◌, refl, inl, [], ◌∷◌, ◌++◌, Bytes, true, false, arith}
use pipe_shell_x.Base.Errors.{ok}
use pipe_shell_x.Transport.Frame
use pipe_shell_x.Transport.Frame.{Frame, open_frame}
use pipe_shell_x.Transport.Frame.RoundTrip.{sent}
use pipe_shell_x.Transport.Control.Tests.{killed}
use pipe_shell_x.Transport.Open.{encode_open}
use pipe_shell_x.Transport.Open.Tests.{a_request, a_request-is_valid}
use pipe_shell_x.Transport.Session.State
use pipe_shell_x.Transport.Session.State.{
  Role, controller, node, stderr, stdout, Stream, Session, create_stream, erase, tell, find,
  try_emplace,
}
use pipe_shell_x.Transport.Session.Flush.{frame_of, data_flags, flush_data}
use pipe_shell_x.Transport.Session.Flush.Loop.{Flushed, IsOver, IsCounted, flush_data_lem}
use pipe_shell_x.Transport.Session.Flush.Tagged.{tag, tagged_queue}
use pipe_shell_x.Transport.Session.Calls.{open_stream, plain_frame}
use pipe_shell_x.Transport.Session.Dispatch.{dispatch}
use pipe_shell_x.Transport.Session.Laws.{dispatch-open_stream, dispatch-frame_of}

-- Two segments, and credit for the first and one byte of the second.
abbrev two_segments : Stream
two_segments = record {
  recv_window = record { window = 16; threshold = 8; outstanding = 0; pending_update = 0 };
  send_credit = 3;
  send_queue =
      record { channel = stdout; bytes = 65 ∷ 66 ∷ [] }
      ∷ record { channel = stderr; bytes = 67 ∷ 68 ∷ [] }
      ∷ [];
  send_bytes = 4;
  send_end_pending = true;
  exit_pending = true;
  local_data_closed = true;
  peer_data_closed = false;
  exit_status = killed;
}

two_segments-IsCounted : IsCounted two_segments.send_queue two_segments
unfolding tagged_queue tag
two_segments-IsCounted = record {
  queue_is = refl;
  total = refl;
  wide = omega arith;
  word = omega arith;
}

flush_data_lem_example :
    Flushed two_segments.send_queue two_segments (flush_data 1 two_segments)
    × IsOver (flush_data 1 two_segments)
flush_data_lem_example = flush_data_lem 1 two_segments two_segments-IsCounted

-- A frame of an unknown type.
abbrev bad_frame : Frame
bad_frame = record { type = 99; flags = 0; stream_id = 0; payload = [] }

abbrev bad_bytes : Bytes
bad_bytes = sent (bad_frame ∷ []) ++ []

dispatch-open_stream_example :
    let (id, c') = open_stream a_request (State.create controller 16) in
    let f = plain_frame open_frame id (encode_open a_request) in
    let (r, n') = dispatch f (State.create node 16) in
    (id ≡ 1)
    × (c'.log ≡ State.wrote f ∷ [])
    × (r ≡ ok tt)
    × (n'.log ≡ State.on_open id a_request ∷ [])
    × (n'.streams ≡ try_emplace id (create_stream 16) [])
    × (n'.next_peer_stream_id ≡ c'.next_stream_id)
unfolding State.create
dispatch-open_stream_example =
    dispatch-open_stream a_request (State.create controller 16) (State.create node 16)
      a_request-is_valid refl refl refl refl (omega arith) (omega arith) refl refl refl refl

-- A controller with one stream open.
abbrev waiting : Session
waiting = record (State.create controller 16) { streams = (1, two_segments) ∷ [] }

dispatch-frame_of_example :
    let (r, s') = dispatch (frame_of 1 (data_flags stderr true) (65 ∷ [])) waiting in
    (r ≡ ok tt)
    × (s'.log ≡ State.on_data 1 (65 ∷ []) true stderr ∷ [])
    × ((st : Stream) × (find 1 s'.streams ≡ some st)
        × (peer_credit st.recv_window + 1 ≡ 16)
        × IsValid st.recv_window
        × (st.peer_data_closed ≡ true))
unfolding State.create find
dispatch-frame_of_example =
    dispatch-frame_of 1 stderr true (65 ∷ []) waiting two_segments refl (omega arith) refl refl refl
      (record { word = omega arith; ledger = omega arith; pending_waits = inl refl }) (omega arith)
