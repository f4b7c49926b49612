-- ===== src/Transport/Control/RoundTrip.antt =====
-- The control payloads decode to what was encoded, and nothing else decodes.
use pipe_shell_x.Base.{
  ℕ, suc, Bool-cases, inl, inr, ◌≡◌, ◌≢◌, ◌<◌, ◌^◌, ◌%◌, refl, sym, ap, ap₂, ◌∙◌, [], ◌∷◌, false,
  Bytes, length, ltb, ◌==◌, All, arith, append-nil,
}
use pipe_shell_x.Base.Int.{ℤ, to_u32, to_i32, IsI32, to_i32-to_u32, to_u32-lt, to_u32-to_i32}
use pipe_shell_x.Base.Errors.{ok, err, error_of, other, ok-injective}
use pipe_shell_x.Transport.Wire.{
  write_u32_be, read_u32_be, read_u32_be-write_u32_be, length-write_u32_be, read_u32_be-lt,
  write_u32_be-read_u32_be, IsByte,
}
use pipe_shell_x.Transport.Control.{
  ExitKind, ExitStatus, exited, signaled, terminated, kind_byte, kind_of, encode_exit, decode_exit,
  encode_window_update, decode_window_update,
}

kind_of-kind_byte : (k : ExitKind) → kind_of (kind_byte k) ≡ k
unfolding kind_of kind_byte
kind_of-kind_byte exited = refl
kind_of-kind_byte signaled = refl
kind_of-kind_byte terminated = refl

kind_byte-le : (k : ExitKind) → kind_byte k < 3
unfolding kind_byte
kind_byte-le exited = omega arith
kind_byte-le signaled = omega arith
kind_byte-le terminated = omega arith

read_word : (z : ℤ) → read_u32_be (write_u32_be (to_u32 z)) ≡ to_u32 z
read_word z =
    ap read_u32_be (sym (append-nil (write_u32_be (to_u32 z))))
    ∙ read_u32_be-write_u32_be (to_u32 z) [] (to_u32-lt z)

-- An exit status whose code fits an `int` is read back from its payload.
pub decode_exit-encode_exit : (s : ExitStatus) → IsI32 s.code → decode_exit (encode_exit s) ≡ ok s
unfolding decode_exit encode_exit
decode_exit-encode_exit s h =
    let byte : kind_byte s.kind % 256 ≡ kind_byte s.kind = omega (arith, kind_byte-le s.kind) in
    let known : ltb 2 (kind_byte s.kind) ≡ false = ground (arith, kind_byte-le s.kind) in
    rw (length-write_u32_be (to_u32 s.code), byte, known)
      (ap₂ (λ k c. ok (record { kind = k; code = c })) (kind_of-kind_byte s.kind)
        (ap to_i32 (read_word s.code) ∙ to_i32-to_u32 s.code h))

kind_byte-kind_of : (n : ℕ) → n < 3 → kind_byte (kind_of n) ≡ n
unfolding kind_byte kind_of
kind_byte-kind_of n h = ground arith

-- A payload of bytes that is accepted is the encoding of the status it is read as.
pub encode_exit-decode_exit :
    (payload : Bytes) (s : ExitStatus)
    → All IsByte payload
    → decode_exit payload ≡ ok s
    → encode_exit s ≡ payload
unfolding decode_exit encode_exit
encode_exit-decode_exit [] s v e = cc
encode_exit-decode_exit (k ∷ word) s v e = elim (Bool-cases (suc (length word) == 5)) [
  | inr bad ↦
      absurd (
        let no_ok : err (error_of other "EXIT payload: expected 5 bytes") ≡ ok s = rw bad at e in
        cc)
  | inl five ↦ elim (Bool-cases (ltb 2 (k % 256))) [
    | inl bad ↦ absurd (
        let no_ok : err (error_of other "EXIT payload: unknown status kind") ≡ ok s =
          rw (five, bad) at e in
        cc)
    | inr known ↦
        let four : length word ≡ 4 = ground arith in
        let same : ok (record { kind = kind_of (k % 256); code = to_i32 (read_u32_be word) })
            ≡ ok s =
          rw (five, known) at e in
        let word_back : write_u32_be (read_u32_be word) ≡ word =
          ap (λ w. write_u32_be (read_u32_be w)) (sym (append-nil word))
          ∙ write_u32_be-read_u32_be word [] four v.1 in
        ap encode_exit (sym (ok-injective same))
        ∙ unfold encode_exit in
          ap₂ ◌∷◌ (kind_byte-kind_of (k % 256) (ground arith) ∙ omega (arith, v.0))
            (ap write_u32_be (to_u32-to_i32 (read_u32_be word) (read_u32_be-lt word)) ∙ word_back)
  ]
]

-- A credit is read back from its payload, and a zero credit is refused.
pub decode_window_update-encode_window_update :
    (delta : ℕ)
    → delta < 2 ^ 32
    → (delta ≢ 0 → decode_window_update (encode_window_update delta) ≡ ok delta)
      × (delta ≡ 0
          → decode_window_update (encode_window_update delta)
            ≡ err (error_of other "WINDOW_UPDATE payload: zero delta"))
unfolding decode_window_update encode_window_update
decode_window_update-encode_window_update delta h =
    let back : read_u32_be (write_u32_be delta) ≡ delta =
      ap read_u32_be (sym (append-nil (write_u32_be delta)))
      ∙ read_u32_be-write_u32_be delta [] h in
    (
      (λ nonzero. rw (length-write_u32_be delta, back) (ground arith)),
      λ zero_delta. rw (length-write_u32_be delta, back, zero_delta) refl,
    )

pub decode_window_update-lt :
    (payload : Bytes) (delta : ℕ)
    → decode_window_update payload ≡ ok delta
    → (0 < delta) × (delta < 2 ^ 32)
unfolding decode_window_update
decode_window_update-lt payload delta e = ground (arith, read_u32_be-lt payload)
