-- ===== src/Transport/Frame/Decode.antt =====
-- The decoder's loop: a round for each byte is enough, and it goes on where it stopped.
use pipe_shell_x.Base.{
  ℕ, zero, suc, ◌≡◌, ◌<◌, refl, sym, ap, ◌∙◌, [], ◌∷◌, ◌++◌, List, Bool, true, false, Bytes, length,
  arith,
}
use pipe_shell_x.Transport.Frame.{
  Frame, incomplete, oversized, complete, next_frame, Decoded, frame_then, decode_loop, decode,
}
use pipe_shell_x.Transport.Frame.Loop.{
  waits, refuses, takes, outcome, next_frame-shorter, next_frame-takes-append,
  next_frame-refuses-append,
}

abbrev pub stopped : Bool → Bytes → Decoded
stopped violation bytes = record { violation = violation; frames = []; rest = bytes }

module _ (max : ℕ) where
  loop_waits :
      (fuel : ℕ) (bytes : Bytes)
      → next_frame max bytes ≡ incomplete
      → decode_loop (suc fuel) max bytes ≡ stopped false bytes
  unfolding decode_loop
  loop_waits fuel bytes e = rw (e, decode_loop) refl

  loop_refuses :
      (fuel : ℕ) (bytes : Bytes)
      → next_frame max bytes ≡ oversized
      → decode_loop (suc fuel) max bytes ≡ stopped true bytes
  unfolding decode_loop
  loop_refuses fuel bytes e = rw (e, decode_loop) refl

  loop_takes :
      (fuel : ℕ) (bytes behind : Bytes) (f : Frame)
      → next_frame max bytes ≡ complete f behind
      → decode_loop (suc fuel) max bytes ≡ frame_then f (decode_loop fuel max behind)
  unfolding decode_loop
  loop_takes fuel bytes behind f e = rw (e, decode_loop) refl

  -- Any two amounts of fuel that cover the bytes give the same.
  loop_fuel :
      (fuel other_fuel : ℕ) (bytes : Bytes)
      → length bytes < fuel
      → length bytes < other_fuel
      → decode_loop fuel max bytes ≡ decode_loop other_fuel max bytes
  loop_fuel zero m bytes h k = absurd (omega arith)
  loop_fuel (suc n) zero bytes h k = absurd (omega arith)
  loop_fuel (suc n) (suc m) bytes h k = elim (outcome max bytes) [
    | waits e ↦ loop_waits n bytes e ∙ sym (loop_waits m bytes e)
    | refuses e ↦ loop_refuses n bytes e ∙ sym (loop_refuses m bytes e)
    | takes f behind e ↦
        let less = next_frame-shorter max bytes f behind e in
        loop_takes n bytes behind f e
        ∙ ap (frame_then f) (loop_fuel n m behind (omega arith) (omega arith))
        ∙ sym (loop_takes m bytes behind f e)
  ]

  pub decode_waits :
      (bytes : Bytes) → next_frame max bytes ≡ incomplete → decode max bytes ≡ stopped false bytes
  unfolding decode
  decode_waits bytes e = loop_waits (length bytes) bytes e

  pub decode_refuses :
      (bytes : Bytes) → next_frame max bytes ≡ oversized → decode max bytes ≡ stopped true bytes
  unfolding decode
  decode_refuses bytes e = loop_refuses (length bytes) bytes e

  pub decode_takes :
      (bytes behind : Bytes) (f : Frame)
      → next_frame max bytes ≡ complete f behind
      → decode max bytes ≡ frame_then f (decode max behind)
  unfolding decode
  decode_takes bytes behind f e =
      loop_takes (length bytes) bytes behind f e
      ∙ ap (frame_then f) (
          loop_fuel (length bytes) (suc (length behind)) behind
            (next_frame-shorter max bytes f behind e) (omega arith))

  abbrev pub frames_then : List Frame → Decoded → Decoded
  frames_then fs d = record d { frames = fs ++ d.frames }

  -- Where the loop stopped for want of bytes it goes on when they come.
  resume :
      (fuel : ℕ) (xs ys : Bytes)
      → length xs < fuel
      → (decode max xs).violation ≡ false
      → decode max (xs ++ ys)
        ≡ frames_then (decode max xs).frames (decode max ((decode max xs).rest ++ ys))
  unfolding frame_then
  resume zero xs ys h ok = absurd (omega arith)
  resume (suc n) xs ys h ok = elim (outcome max xs) [
    | waits e ↦ rw (decode_waits xs e) refl
    | refuses e ↦ absurd (let bad : true ≡ false = rw (decode_refuses xs e) at ok in cc)
    | takes f behind e ↦
        let less = next_frame-shorter max xs f behind e in
        let ok' : (decode max behind).violation ≡ false = rw (decode_takes xs behind f e) at ok in
        rw
          (
            decode_takes xs behind f e,
            decode_takes (xs ++ ys) (behind ++ ys) f (next_frame-takes-append max xs ys f behind e),
          )
          (ap (frame_then f) (resume n behind ys (omega arith) ok'))
  ]

  -- A violation is met whatever follows, behind the same frames.
  stay_refused :
      (fuel : ℕ) (xs ys : Bytes)
      → length xs < fuel
      → (decode max xs).violation ≡ true
      → ((decode max (xs ++ ys)).violation ≡ true)
        × ((decode max (xs ++ ys)).frames ≡ (decode max xs).frames)
  unfolding frame_then
  stay_refused zero xs ys h bad = absurd (omega arith)
  stay_refused (suc n) xs ys h bad = elim (outcome max xs) [
    | waits e ↦ absurd (let good : false ≡ true = rw (decode_waits xs e) at bad in cc)
    | refuses e ↦
        rw (decode_refuses xs e, decode_refuses (xs ++ ys) (next_frame-refuses-append max xs ys e))
          (refl, refl)
    | takes f behind e ↦
        let less = next_frame-shorter max xs f behind e in
        let bad' : (decode max behind).violation ≡ true = rw (decode_takes xs behind f e) at bad in
        let (v, fs) = stay_refused n behind ys (omega arith) bad' in
        rw
          (
            decode_takes xs behind f e,
            decode_takes (xs ++ ys) (behind ++ ys) f (next_frame-takes-append max xs ys f behind e),
          )
          (v, ap (λ gs. f ∷ gs) fs)
  ]

  pub decode-append :
      (xs ys : Bytes)
      → (decode max xs).violation ≡ false
      → decode max (xs ++ ys)
        ≡ frames_then (decode max xs).frames (decode max ((decode max xs).rest ++ ys))
  decode-append xs ys = resume (suc (length xs)) xs ys (omega arith)

  pub decode-append_refused :
      (xs ys : Bytes)
      → (decode max xs).violation ≡ true
      → ((decode max (xs ++ ys)).violation ≡ true)
        × ((decode max (xs ++ ys)).frames ≡ (decode max xs).frames)
  decode-append_refused xs ys = stay_refused (suc (length xs)) xs ys (omega arith)

  -- What is left behind is less than a frame.
  rest_waits :
      (fuel : ℕ) (bytes : Bytes)
      → length bytes < fuel
      → (decode max bytes).violation ≡ false
      → next_frame max (decode max bytes).rest ≡ incomplete
  unfolding frame_then
  rest_waits zero bytes h ok = absurd (omega arith)
  rest_waits (suc n) bytes h ok = elim (outcome max bytes) [
    | waits e ↦ rw (decode_waits bytes e) e
    | refuses e ↦ absurd (let bad : true ≡ false = rw (decode_refuses bytes e) at ok in cc)
    | takes f behind e ↦
        let less = next_frame-shorter max bytes f behind e in
        let ok' : (decode max behind).violation ≡ false =
          rw (decode_takes bytes behind f e) at ok in
        rw (decode_takes bytes behind f e) (rest_waits n behind (omega arith) ok')
  ]

  pub decode-rest :
      (bytes : Bytes)
      → (decode max bytes).violation ≡ false
      → next_frame max (decode max bytes).rest ≡ incomplete
  decode-rest bytes = rest_waits (suc (length bytes)) bytes (omega arith)
