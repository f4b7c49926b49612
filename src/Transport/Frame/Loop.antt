-- ===== src/Transport/Frame/Loop.antt =====
-- One round of the decoder's loop: its outcomes, and what more bytes behind do to them.
use pipe_shell_x.Base.{
  ℕ, ◌+◌, ◌≡◌, ◌≤◌, ◌<◌, refl, sym, ap, ap₂, ◌∙◌, ◌++◌, true, false, Bytes, length, take, drop,
  get_or, get_or-append_left, ltb, arith, length-append, length-drop, take-append_left,
  drop-append_left,
}
use pipe_shell_x.Transport.Wire.{read_u32_be, read_u32_be-append}
use pipe_shell_x.Transport.Frame.{
  Frame, Round, incomplete, oversized, complete, next_frame, payload_size, frame_at,
}

-- The three outcomes of a round.
pub data Outcome (max : ℕ) (bytes : Bytes) : Type 0 where
  waits : next_frame max bytes ≡ incomplete → Outcome max bytes
  refuses : next_frame max bytes ≡ oversized → Outcome max bytes
  takes :
      (f : Frame) (behind : Bytes) → next_frame max bytes ≡ complete f behind → Outcome max bytes

pub outcome : (max : ℕ) (bytes : Bytes) → Outcome max bytes
outcome max bytes = go (next_frame max bytes) refl
  where
    go : (r : Round) → next_frame max bytes ≡ r → Outcome max bytes
    go incomplete e = waits e
    go oversized e = refuses e
    go (complete f behind) e = takes f behind e

-- What a round that takes a frame has tested.
record IsTaken (max : ℕ) (bytes : Bytes) (f : Frame) (behind : Bytes) : Type 0 where
  header : 10 ≤ length bytes
  small : payload_size bytes ≤ max
  whole : 10 + payload_size bytes ≤ length bytes
  frame : f ≡ frame_at bytes
  rest : behind ≡ drop (10 + payload_size bytes) bytes

next_frame-IsTaken :
    (max : ℕ) (bytes : Bytes) (f : Frame) (behind : Bytes)
    → next_frame max bytes ≡ complete f behind
    → IsTaken max bytes f behind
unfolding next_frame
next_frame-IsTaken max bytes f behind e = ground arith

pub next_frame_of :
    (max : ℕ) (bytes : Bytes)
    → payload_size bytes ≤ max
    → 10 + payload_size bytes ≤ length bytes
    → next_frame max bytes ≡ complete (frame_at bytes) (drop (10 + payload_size bytes) bytes)
unfolding next_frame
next_frame_of max bytes small whole =
    let a : ltb (length bytes) 10 ≡ false = ground arith in
    let b : ltb max (payload_size bytes) ≡ false = ground arith in
    let c : ltb (length bytes) (10 + payload_size bytes) ≡ false = ground arith in rw (a, b, c) refl

next_frame-refuses :
    (max : ℕ) (bytes : Bytes)
    → next_frame max bytes ≡ oversized
    → (10 ≤ length bytes) × (max < payload_size bytes)
unfolding next_frame
next_frame-refuses max bytes e = ground arith

pub next_frame_too_big :
    (max : ℕ) (bytes : Bytes)
    → 10 ≤ length bytes
    → max < payload_size bytes
    → next_frame max bytes ≡ oversized
unfolding next_frame
next_frame_too_big max bytes header big =
    let a : ltb (length bytes) 10 ≡ false = ground arith in
    let b : ltb max (payload_size bytes) ≡ true = ground arith in rw (a, b) refl

-- A whole header says the same with more bytes behind it.
pub payload_size-append :
    (bytes more : Bytes) → 10 ≤ length bytes → payload_size (bytes ++ more) ≡ payload_size bytes
unfolding payload_size
payload_size-append bytes more h =
    ap read_u32_be (drop-append_left 6 bytes more (omega arith))
    ∙ read_u32_be-append (drop 6 bytes) more (omega (arith, length-drop 6 bytes))

frame_at-append :
    (bytes more : Bytes)
    → 10 ≤ length bytes
    → 10 + payload_size bytes ≤ length bytes
    → frame_at (bytes ++ more) ≡ frame_at bytes
unfolding frame_at
frame_at-append bytes more h whole =
    let type : get_or (bytes ++ more) 0 0 ≡ get_or bytes 0 0 =
      get_or-append_left bytes more 0 0 (omega arith) in
    let flags : get_or (bytes ++ more) 1 0 ≡ get_or bytes 1 0 =
      get_or-append_left bytes more 1 0 (omega arith) in
    let id : read_u32_be (drop 2 (bytes ++ more)) ≡ read_u32_be (drop 2 bytes) =
      ap read_u32_be (drop-append_left 2 bytes more (omega arith))
      ∙ read_u32_be-append (drop 2 bytes) more (omega (arith, length-drop 2 bytes)) in
    let payload : take (payload_size bytes) (drop 10 (bytes ++ more))
        ≡ take (payload_size bytes) (drop 10 bytes) =
      ap (take (payload_size bytes)) (drop-append_left 10 bytes more (omega arith))
      ∙ take-append_left (payload_size bytes) (drop 10 bytes) more
          (omega (arith, length-drop 10 bytes)) in
    rw (type, flags, id, payload_size-append bytes more h, payload) refl

-- A round that takes a frame shortens the bytes.
pub next_frame-shorter :
    (max : ℕ) (bytes : Bytes) (f : Frame) (behind : Bytes)
    → next_frame max bytes ≡ complete f behind
    → length behind < length bytes
next_frame-shorter max bytes f behind e =
    let t = next_frame-IsTaken max bytes f behind e in
    omega (arith, t.whole, ap length t.rest, length-drop (10 + payload_size bytes) bytes)

-- More bytes behind do not change a round that is decided.
pub next_frame-takes-append :
    (max : ℕ) (bytes more : Bytes) (f : Frame) (behind : Bytes)
    → next_frame max bytes ≡ complete f behind
    → next_frame max (bytes ++ more) ≡ complete f (behind ++ more)
next_frame-takes-append max bytes more f behind e =
    let t = next_frame-IsTaken max bytes f behind e in
    let size : payload_size (bytes ++ more) ≡ payload_size bytes =
      payload_size-append bytes more t.header in
    next_frame_of max (bytes ++ more) (omega (arith, t.small, size))
      (omega (arith, t.whole, size, length-append bytes more))
    ∙ ap₂ complete (frame_at-append bytes more t.header t.whole ∙ sym t.frame) (
        ap (λ k. drop (10 + k) (bytes ++ more)) size
        ∙ drop-append_left (10 + payload_size bytes) bytes more t.whole
        ∙ ap (λ w. w ++ more) (sym t.rest))

pub next_frame-refuses-append :
    (max : ℕ) (bytes more : Bytes)
    → next_frame max bytes ≡ oversized
    → next_frame max (bytes ++ more) ≡ oversized
next_frame-refuses-append max bytes more e =
    let (header, big) = next_frame-refuses max bytes e in
    next_frame_too_big max (bytes ++ more) (omega (arith, length-append bytes more, header))
      (omega (arith, big, payload_size-append bytes more header))
