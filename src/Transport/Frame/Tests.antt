-- ===== src/Transport/Frame/Tests.antt =====
-- The frame codec at concrete inputs.
use pipe_shell_x.Base.{◌≡◌, refl, [], ◌∷◌, arith}
use pipe_shell_x.Transport.Wire.{write_u32_be}
use pipe_shell_x.Transport.Frame.{
  Frame, create, encode_frame, encode_frame_into, feed, push, next_frame,
}
use pipe_shell_x.Transport.Frame.Chunks.{Agree, create-IsSettled, feed-flatten}
use pipe_shell_x.Transport.Frame.RoundTrip.{IsSendable, feed-sent}

abbrev a_frame : Frame
a_frame = record { type = 2; flags = 1; stream_id = 7; payload = 65 ∷ 66 ∷ [] }

feed-flatten_example :
    Agree (feed ((1 ∷ []) ∷ (2 ∷ 3 ∷ []) ∷ []) (create 8)) (push (1 ∷ 2 ∷ 3 ∷ []) (create 8))
feed-flatten_example = feed-flatten ((1 ∷ []) ∷ (2 ∷ 3 ∷ []) ∷ []) (create 8) (create-IsSettled 8)

a_frame-IsSendable : IsSendable 8 a_frame
a_frame-IsSendable = record {
  type = omega arith;
  flags = omega arith;
  stream_id = omega arith;
  payload = omega arith;
  word = omega arith;
}

feed-sent_example :
    feed ((2 ∷ 1 ∷ 0 ∷ 0 ∷ []) ∷ (0 ∷ 7 ∷ 0 ∷ 0 ∷ 0 ∷ 2 ∷ 65 ∷ 66 ∷ 3 ∷ []) ∷ []) (create 8)
    ≡ (a_frame ∷ [], record (create 8) { buffer = 3 ∷ [] })
unfolding encode_frame encode_frame_into next_frame write_u32_be
feed-sent_example =
    feed-sent 8 (a_frame ∷ []) (3 ∷ [])
      ((2 ∷ 1 ∷ 0 ∷ 0 ∷ []) ∷ (0 ∷ 7 ∷ 0 ∷ 0 ∷ 0 ∷ 2 ∷ 65 ∷ 66 ∷ 3 ∷ []) ∷ [])
      (a_frame-IsSendable, tt) refl refl
