-- ===== src/Transport/Open/Sound.antt =====
-- Only encodings of valid requests are decoded.
use pipe_shell_x.Base.{
  ℕ, ◌≡◌, refl, sym, ap, ap₂, ◌∙◌, [], ◌∷◌, ◌++◌, some, none, Option, Bool, true, false, not, Bytes,
  length, ltb, ◌==◌, All, arith, append-nil,
}
use Prim.Native.String.{String}
use pipe_shell_x.Base.Errors.{ok, >>-eq-ok, >>=-eq-ok, ok-injective}
use pipe_shell_x.Transport.Wire.{write_u32_be, IsByte}
use pipe_shell_x.Transport.Open.{
  OpenRequest, max_open_argc, max_open_cwd_bytes, open_version, take_u8, take_u32, take_string,
  take_args, validate_open_request, encode_string, encode_args, encode_open, decode_fields,
  decode_open, at_end, or_malformed, guard,
}
use pipe_shell_x.Transport.Open.Takes.{take_u32-Spells, take_string-Spells, take_args-Spells}

guard-ok : (b : Bool) (what : String) → guard b what ≡ ok tt → b ≡ false
guard-ok true what e = cc
guard-ok false what e = refl

or_malformed-ok :
    {A : Type 0} (o : Option A) (what : String) (a : A) → or_malformed o what ≡ ok a → o ≡ some a
or_malformed-ok none what a e = cc
or_malformed-ok (some b) what a e = ap some (ok-injective e)

nil_of_end : (bytes : Bytes) → not (length bytes == 0) ≡ false → bytes ≡ []
nil_of_end [] e = refl
nil_of_end (b ∷ bytes) e = absurd (ground arith)

at_end-ok :
    (behind : Bytes) (r s : OpenRequest)
    → at_end (length behind == 0) r ≡ ok s
    → (behind ≡ []) × (validate_open_request s ≡ ok tt) × (r ≡ s)
unfolding at_end
at_end-ok behind r s e =
    let (done, valid_then) = >>-eq-ok (guard (not (length behind == 0)) _) _ e in
    let (valid, same) = >>-eq-ok (validate_open_request r) (ok r) valid_then in
    (
      nil_of_end behind (guard-ok _ _ done),
      ap validate_open_request (sym (ok-injective same)) ∙ valid,
      ok-injective same,
    )

decode_fields_sound :
    (argc : ℕ) (bytes : Bytes) (r : OpenRequest)
    → All IsByte bytes
    → decode_fields argc bytes ≡ ok r
    → (validate_open_request r ≡ ok tt)
      × (length r.argv ≡ argc)
      × (bytes ≡ encode_args r.argv ++ encode_string r.cwd)
unfolding decode_fields
decode_fields_sound argc bytes r v e =
    let ((argv, rest), args_in, then_cwd) = >>=-eq-ok (or_malformed (take_args argc bytes) _) _ e in
    let (args, count) = take_args-Spells argc bytes argv rest v (or_malformed-ok _ _ _ args_in) in
    let ((cwd, behind), cwd_in, then_end) =
      >>=-eq-ok (or_malformed (take_string max_open_cwd_bytes rest) _) _ then_cwd in
    let dir =
      take_string-Spells max_open_cwd_bytes rest cwd behind args.wire
        (or_malformed-ok _ _ _ cwd_in) in
    let (done, valid, same) = at_end-ok behind (record { argv = argv; cwd = cwd }) r then_end in
    (
      valid,
      ap (λ (s : OpenRequest). length s.argv) (sym same) ∙ count,
      args.split
          ∙ ap (λ w. encode_args argv ++ w)
              (dir.split ∙ ap (λ w. encode_string cwd ++ w) done ∙ append-nil (encode_string cwd))
          ∙ ap (λ (s : OpenRequest). encode_args s.argv ++ encode_string s.cwd) same,
    )

-- What the decoder accepts is valid, and its bytes are just the encoding of what it is read as: the wire
-- has one form for each request.
pub decode_open_sound :
    (payload : Bytes) (r : OpenRequest)
    → All IsByte payload
    → decode_open payload ≡ ok r
    → (validate_open_request r ≡ ok tt) × (encode_open r ≡ payload)
unfolding decode_open encode_open take_u8
decode_open_sound [] r v e = cc
decode_open_sound (version ∷ payload) r v e =
    let (is_version, then_argc) = >>-eq-ok (guard (not (version == open_version)) _) _ e in
    let ((argc, behind), argc_in, then_few) =
      >>=-eq-ok (or_malformed (take_u32 payload) _) _ then_argc in
    let (few, then_fields) = >>-eq-ok (guard (ltb max_open_argc argc) _) _ then_few in
    let (head, word) = take_u32-Spells payload behind argc v.1 (or_malformed-ok _ _ _ argc_in) in
    let (valid, count, fields) = decode_fields_sound argc behind r head.wire then_fields in
    let one : 1 ≡ version = ground (arith, guard-ok _ _ is_version) in
    (
      valid,
      ap₂ ◌∷◌ one (
          ap (λ w. w ++ (encode_args r.argv ++ encode_string r.cwd))
            (ap write_u32_be (omega (arith, count, word)))
          ∙ ap (λ w. write_u32_be argc ++ w) (sym fields)
          ∙ sym head.split),
    )
