-- ===== src/Transport/Open/RoundTrip.antt =====
-- A valid request survives the wire.
use pipe_shell_x.Base.{
  ℕ, ◌%◌, ◌^◌, ◌≡◌, ◌≤◌, ◌<◌, refl, sym, ap, ◌∙◌, [], ◌∷◌, ◌++◌, List, some, false, ◌||◌, Bytes,
  length, ltb, All, arith, append_assoc, append-nil, length-append, take-append_length,
  drop-append_length,
}
use pipe_shell_x.Base.Errors.{ok, >>-eq-ok}
use pipe_shell_x.Transport.Wire.{write_u32_be, read_u32_be-write_u32_be, length-write_u32_be}
use pipe_shell_x.Transport.Open.{
  OpenRequest, max_open_argc, max_open_argument_bytes, max_open_cwd_bytes, take_u8, take_u32,
  take_counted, take_string, take_args, validate_args, validate_cwd, validate_argv,
  validate_open_request, encode_string, encode_args, encode_open, decode_fields, decode_open,
  at_end,
}

take_u32-write_u32_be :
    (n : ℕ) (rest : Bytes) → n < 2 ^ 32 → take_u32 (write_u32_be n ++ rest) ≡ some (n, rest)
unfolding take_u32
take_u32-write_u32_be n rest h =
    let enough : ltb (length (write_u32_be n ++ rest)) 4 ≡ false =
      ground (arith, length-append (write_u32_be n) rest, length-write_u32_be n) in
    rw
      (
        enough,
        read_u32_be-write_u32_be n rest h,
        drop-append_length 4 (write_u32_be n) rest (length-write_u32_be n),
      )
      refl

take_counted-append :
    (max n : ℕ) (s rest : Bytes)
    → length s ≡ n
    → n ≤ max
    → take_counted max n (s ++ rest) ≡ some (s, rest)
unfolding take_counted
take_counted-append max n s rest e h =
    let fits : (ltb max n || ltb (length (s ++ rest)) n) ≡ false =
      ground (arith, length-append s rest) in
    rw (fits, take-append_length n s rest e, drop-append_length n s rest e) refl

take_string-encode_string :
    (max : ℕ) (s rest : Bytes)
    → length s ≤ max
    → max < 2 ^ 32
    → take_string max (encode_string s ++ rest) ≡ some (s, rest)
unfolding take_string encode_string
take_string-encode_string max s rest h word =
    let n : length s % 2 ^ 32 ≡ length s = omega arith in
    rw (append_assoc, n, take_u32-write_u32_be (length s) (s ++ rest) (omega arith), take_string)
      (take_counted-append max (length s) s rest refl h)

-- An argument within the bound.
abbrev pub IsShort : Bytes → Type 0
IsShort arg = length arg ≤ max_open_argument_bytes

take_args-encode_args :
    (args : List Bytes) (rest : Bytes)
    → All IsShort args
    → take_args (length args) (encode_args args ++ rest) ≡ some (args, rest)
unfolding take_args encode_args
take_args-encode_args [] rest v = refl
take_args-encode_args (arg ∷ args) rest v =
    rw
      (
        append_assoc,
        take_string-encode_string max_open_argument_bytes arg (encode_args args ++ rest) v.0
            (omega arith),
        take_args-encode_args args rest v.1,
        take_args,
      )
      refl

validate_args-IsShort : (args : List Bytes) → validate_args args ≡ ok tt → All IsShort args
unfolding validate_args
validate_args-IsShort [] e = tt
validate_args-IsShort (arg ∷ args) e = ground (arith, validate_args-IsShort args)

-- What a valid request is known to be.
record IsValid (r : OpenRequest) : Type 0 where
  argc : length r.argv ≤ max_open_argc
  short : All IsShort r.argv
  cwd : length r.cwd ≤ max_open_cwd_bytes

validate_argv-facts :
    (argv : List Bytes)
    → validate_argv argv ≡ ok tt
    → (length argv ≤ max_open_argc) × All IsShort argv
unfolding validate_argv
validate_argv-facts [] e = cc
validate_argv-facts (program ∷ args) e = ground (arith, validate_args-IsShort (program ∷ args))

validate_cwd-facts : (cwd : Bytes) → validate_cwd cwd ≡ ok tt → length cwd ≤ max_open_cwd_bytes
unfolding validate_cwd
validate_cwd-facts cwd e = ground arith

validate_open_request-IsValid : (r : OpenRequest) → validate_open_request r ≡ ok tt → IsValid r
unfolding validate_open_request
validate_open_request-IsValid r e =
    let (argv_ok, cwd_ok) = >>-eq-ok (validate_argv r.argv) (validate_cwd r.cwd) e in
    record {
      argc = (validate_argv-facts r.argv argv_ok).0;
      short = (validate_argv-facts r.argv argv_ok).1;
      cwd = validate_cwd-facts r.cwd cwd_ok;
    }

decode_fields-encode :
    (r : OpenRequest)
    → validate_open_request r ≡ ok tt
    → decode_fields (length r.argv) (encode_args r.argv ++ encode_string r.cwd) ≡ ok r
unfolding decode_fields at_end
decode_fields-encode r e =
    let v = validate_open_request-IsValid r e in
    let cwd : take_string max_open_cwd_bytes (encode_string r.cwd) ≡ some (r.cwd, []) =
      ap (take_string max_open_cwd_bytes) (sym (append-nil (encode_string r.cwd)))
      ∙ take_string-encode_string max_open_cwd_bytes r.cwd [] v.cwd (omega arith) in
    rw (take_args-encode_args r.argv (encode_string r.cwd) v.short, cwd, e) refl

-- A request that is valid is read back from its encoding: nothing is cut, and nothing is left over.
pub decode_open-encode_open :
    (r : OpenRequest) → validate_open_request r ≡ ok tt → decode_open (encode_open r) ≡ ok r
unfolding decode_open encode_open take_u8
decode_open-encode_open r e =
    let v = validate_open_request-IsValid r e in
    let argc : length r.argv % 2 ^ 32 ≡ length r.argv = omega (arith, v.argc) in
    let few : ltb max_open_argc (length r.argv) ≡ false = ground (arith, v.argc) in
    rw
      (
        argc,
        take_u32-write_u32_be (length r.argv) (encode_args r.argv ++ encode_string r.cwd)
            (omega (arith, v.argc)),
        few,
      )
      (decode_fields-encode r e)
