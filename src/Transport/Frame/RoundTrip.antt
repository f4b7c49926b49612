-- ===== src/Transport/Frame/RoundTrip.antt =====
-- Encoded frames decode to themselves, in order, whatever the chunks.
use pipe_shell_x.Base.{
  ℕ, ◌+◌, ◌%◌, ◌^◌, ◌≡◌, ◌≤◌, ◌<◌, refl, sym, ap, ap₂, ◌∙◌, [], ◌∷◌, ◌++◌, List, false, Bytes,
  length, take, drop, flatten, arith, append_assoc, length-append, take-append_length,
  drop-append_length, drop-drop, All,
}
use pipe_shell_x.Base.Errors.{Result, ok}
use pipe_shell_x.Transport.Wire.{write_u32_be, read_u32_be-write_u32_be}
use pipe_shell_x.Transport.Frame.{
  Frame, incomplete, complete, next_frame, frame_at, payload_size, encode_frame, encode_frame_into,
  Decoded, decode, frame_then, FrameDecoder, create, push, feed,
}
use pipe_shell_x.Transport.Frame.Loop.{next_frame_of}
use pipe_shell_x.Transport.Frame.Decode.{decode_waits, decode_takes}
use pipe_shell_x.Transport.Frame.Chunks.{create-IsSettled, push_ok, Agree, feed-flatten}

-- The fields are as wide as their types, and the payload is within the decoder's maximum.
pub record IsSendable (max : ℕ) (f : Frame) : Type 0 where
  pub type : f.type < 256
  pub flags : f.flags < 256
  pub stream_id : f.stream_id < 2 ^ 32
  pub payload : length f.payload ≤ max
  pub word : max < 2 ^ 32

module _ (max : ℕ) (f : Frame) (tail : Bytes) (v : IsSendable max f) where
  abbrev wire : Bytes
  wire = encode_frame f ++ tail

  payload_size-wire : payload_size wire ≡ length f.payload
  unfolding payload_size encode_frame encode_frame_into write_u32_be
  payload_size-wire =
      read_u32_be-write_u32_be (length f.payload % 2 ^ 32) (f.payload ++ tail) (omega arith)
      ∙ omega (arith, v.payload, v.word)

  frame_at-wire : frame_at wire ≡ f
  unfolding frame_at encode_frame encode_frame_into write_u32_be
  frame_at-wire =
      let id =
        read_u32_be-write_u32_be f.stream_id
          (write_u32_be (length f.payload % 2 ^ 32) ++ (f.payload ++ tail)) v.stream_id in
      let payload = take-append_length (length f.payload) f.payload tail refl in
      λ i. record {
        type = f.type;
        flags = f.flags;
        stream_id = id i;
        payload = (ap (λ k. take k (f.payload ++ tail)) payload_size-wire ∙ payload) i;
      }

  drop-wire : drop (10 + length f.payload) wire ≡ tail
  unfolding encode_frame encode_frame_into write_u32_be
  drop-wire =
      sym (drop-drop (length f.payload) 10 wire)
      ∙ drop-append_length (length f.payload) f.payload tail refl

  length-wire : length wire ≡ 10 + length f.payload + length tail
  unfolding encode_frame encode_frame_into write_u32_be
  length-wire = omega (arith, length-append f.payload tail)

  -- The decoder's round takes an encoded frame off the front and leaves what is behind it.
  pub next_frame-encode_frame : next_frame max wire ≡ complete f tail
  next_frame-encode_frame =
      next_frame_of max wire (omega (arith, payload_size-wire, v.payload))
        (omega (arith, payload_size-wire, length-wire))
      ∙ ap₂ complete frame_at-wire (ap (λ k. drop (10 + k) wire) payload_size-wire ∙ drop-wire)

-- The bytes that a sender of frames writes.
abbrev pub sent : List Frame → Bytes
sent [] = []
sent (f ∷ fs) = encode_frame f ++ sent fs

decode-sent :
    (max : ℕ) (fs : List Frame) (tail : Bytes)
    → All (IsSendable max) fs
    → next_frame max tail ≡ incomplete
    → decode max (sent fs ++ tail) ≡ record { violation = false; frames = fs; rest = tail }
unfolding frame_then
decode-sent max [] tail v partial = decode_waits max tail partial
decode-sent max (f ∷ fs) tail v partial =
    ap (decode max) (append_assoc (encode_frame f) (sent fs) tail)
    ∙ decode_takes max (encode_frame f ++ (sent fs ++ tail)) (sent fs ++ tail) f
        (next_frame-encode_frame max f (sent fs ++ tail) v.0)
    ∙ ap (frame_then f) (decode-sent max fs tail v.1 partial)

pub push-sent :
    (max : ℕ) (fs : List Frame) (tail : Bytes)
    → All (IsSendable max) fs
    → next_frame max tail ≡ incomplete
    → push (sent fs ++ tail) (create max) ≡ (ok tt, fs, record (create max) { buffer = tail })
unfolding create
push-sent max fs tail v partial =
    let d = decode-sent max fs tail v partial in
    push_ok (sent fs ++ tail) (create max) refl (ap (λ (o : Decoded). o.violation) d)
    ∙ ap (λ (o : Decoded). (ok tt, o.frames, record (create max) { buffer = o.rest })) d

-- However the bytes of sendable frames, with less than a frame behind them, are cut into chunks, the
-- decoder gives just these frames to the sink, in order; it is not poisoned and keeps the bytes behind.
pub feed-sent :
    (max : ℕ) (fs : List Frame) (tail : Bytes) (chunks : List Bytes)
    → All (IsSendable max) fs
    → next_frame max tail ≡ incomplete
    → flatten chunks ≡ sent fs ++ tail
    → feed chunks (create max) ≡ (fs, record (create max) { buffer = tail })
unfolding create
feed-sent max fs tail chunks v partial e =
    let a : Agree (feed chunks (create max)) (push (flatten chunks) (create max)) =
      feed-flatten chunks (create max) (create-IsSettled max) in
    let p : push (flatten chunks) (create max)
        ≡ (ok tt, fs, record (create max) { buffer = tail }) =
      ap (λ w. push w (create max)) e ∙ push-sent max fs tail v partial in
    let alive : (feed chunks (create max)).1.failed ≡ false =
      a.failed ∙ ap (λ (x : Result (Unit {0}) × List Frame × FrameDecoder). x.2.failed) p in
    λ i. (
      (a.frames ∙ ap (λ (x : Result (Unit {0}) × List Frame × FrameDecoder). x.1) p) i,
      (a.left alive ∙ ap (λ (x : Result (Unit {0}) × List Frame × FrameDecoder). x.2) p) i,
    )
