-- ===== src/Transport/Session/Flush.antt =====
-- `Session::flushStream`: DATA goes out as credit allows, then END_STREAM, then a deferred EXIT.
pub mod Tagged
pub mod Loop
use Prim.Native.Nat.{bit_or}
use pipe_shell_x.Base.{
  ℕ, zero, suc, ◌∷◌, ◌++◌, [], List, Option, none, some, Bool, true, false, not, ◌&&◌, Bytes,
  length, take, drop, min, ltb, leb, ◌==◌, if◌then◌else◌,
}
use pipe_shell_x.Base.Words.{sub32, sub64}
use pipe_shell_x.Transport.Frame.{Frame, to_byte, data_frame, exit_frame}
use pipe_shell_x.Transport.Control.{encode_exit}
use pipe_shell_x.Transport.Session.State.{
  Channel, stdout, stderr, Segment, Stream, Session, Effect, on_writable, tell, send, put,
  close_locally,
}

abbrev pub flag_end_stream : ℕ
flag_end_stream = 1

abbrev pub flag_stderr : ℕ
flag_stderr = 2

-- `channelFlag`
unfoldable pub channel_flag : Channel → ℕ
channel_flag stdout = 0
channel_flag stderr = flag_stderr

unfoldable pub frame_of : ℕ → ℕ → Bytes → Frame
frame_of id flags payload = record {
  type = to_byte data_frame;
  flags = flags;
  stream_id = id;
  payload = payload;
}

-- The flags of a DATA frame: END_STREAM rides the last byte of the last segment.
unfoldable pub data_flags : Channel → Bool → ℕ
unfolding channel_flag
data_flags c last = if last then bit_or (channel_flag c) flag_end_stream else channel_flag c

is_nil : List Segment → Bool
is_nil [] = true
is_nil (x ∷ xs) = false

-- One round of the loop, for a queue with segment `front` before `rest`: the frame and the stream left.
pub flush_round : ℕ → Segment → List Segment → Stream → Frame × Stream
unfolding is_nil
flush_round id front rest st =
    let chunk = min (length front.bytes) st.send_credit in
    let drained = chunk == length front.bytes in
    let last = drained && is_nil rest && st.send_end_pending in
    (
      frame_of id (data_flags front.channel last) (take chunk front.bytes),
      record st {
        send_credit = sub32 st.send_credit chunk;
        send_bytes = sub64 st.send_bytes chunk;
        send_queue =
            if drained then rest else record front { bytes = drop chunk front.bytes } ∷ rest;
        send_end_pending = if last then false else st.send_end_pending;
      },
    )

abbrev pub frame_before : Frame → List Frame × Stream → List Frame × Stream
frame_before f (fs, st) = (f ∷ fs, st)

-- The loop. Each round takes a segment off the queue or uses the credit up, so one round more than
-- there are segments is enough.
pub flush_loop : ℕ → ℕ → List Segment → Stream → List Frame × Stream
flush_loop zero id queue st = ([], st)
flush_loop (suc fuel) id [] st = ([], st)
flush_loop (suc fuel) id (front ∷ rest) st =
    let (f, st') = flush_round id front rest st in
    elim (ltb 0 st.send_credit) [
      | true ↦ frame_before f (flush_loop fuel id st'.send_queue st')
      | false ↦ ([], st)
    ]

pub flush_data : ℕ → Stream → List Frame × Stream
flush_data id st = flush_loop (suc (length st.send_queue)) id st.send_queue st

send_all : List Frame → Session → Session
send_all [] s = s
send_all (f ∷ fs) s = send_all fs (send f s)

-- A pending end with no bytes before it rides a frame of its own.
pub flush_end : ℕ → Stream → List Frame × Stream
unfolding is_nil
flush_end id st =
    if is_nil st.send_queue && st.send_end_pending
    then (frame_of id flag_end_stream [] ∷ [], record st { send_end_pending = false })
    else ([], st)

unfoldable pub exit_frame_of : ℕ → Stream → Frame
exit_frame_of id st = record {
  type = to_byte exit_frame;
  flags = flag_end_stream;
  stream_id = id;
  payload = encode_exit st.exit_status;
}

-- Whether a deferred EXIT may go out.
pub exit_due : Stream → Bool
unfolding is_nil
exit_due st = is_nil st.send_queue && not st.send_end_pending && st.exit_pending

-- `flushStream` for the stream `id`, whose value is `st`.
pub flush_stream : ℕ → Stream → Session → Session
unfolding send_all
flush_stream id st s =
    let was_full = leb s.initial_window st.send_bytes in
    let (data_frames, drained) = flush_data id st in
    let (end_frames, ended) = flush_end id drained in
    let s' = put id ended (send_all end_frames (send_all data_frames s)) in
    if exit_due ended
    then close_locally id ended.peer_data_closed (send (exit_frame_of id ended) s')
    else if was_full && ltb ended.send_bytes s'.initial_window && s'.notifies_writable
    then tell (on_writable id) s'
    else s'
