-- ===== src/Transport/Open.antt =====
-- include/psx/transport/open_request.hpp and src/transport/open_request.cpp: the OPEN payload.
-- A `Reader` is the list of the bytes that remain; a take that fails is `none`.
pub mod RoundTrip
mod Takes
pub mod Sound
pub mod Tests
use pipe_shell_x.Base.{
  ℕ, zero, suc, ◌+◌, ◌*◌, ◌%◌, ◌^◌, [], ◌∷◌, ◌++◌, List, Option, none, some, Bool, true, false, not,
  ◌||◌, Bytes, length, take, drop, ltb, ◌==◌, if◌then◌else◌,
}
use Prim.Native.String.{String}
use pipe_shell_x.Base.Errors.{Result, ok, err, error_of, other, ◌>>=◌, ◌>>◌}
use pipe_shell_x.Transport.Wire.{write_u32_be, read_u32_be}

abbrev pub max_open_argc : ℕ
max_open_argc = 1024

abbrev pub max_open_argument_bytes : ℕ
max_open_argument_bytes = 128 * 1024

abbrev pub max_open_cwd_bytes : ℕ
max_open_cwd_bytes = 32 * 1024

abbrev pub open_version : ℕ
open_version = 1

pub record OpenRequest : Type 0 where
  pub argv : List Bytes
  pub cwd : Bytes

-- `malformed`
abbrev pub malformed {ℓ} : {A : Type ℓ} → String → Result A
malformed what = err (error_of other what)

-- `Reader::takeU8`
pub take_u8 : Bytes → Option (ℕ × Bytes)
take_u8 [] = none
take_u8 (b ∷ rest) = some (b, rest)

-- `Reader::takeU32`
pub take_u32 : Bytes → Option (ℕ × Bytes)
take_u32 bytes = if ltb (length bytes) 4 then none else some (read_u32_be bytes, drop 4 bytes)

-- The test and the read of `takeString` behind the length.
pub take_counted : ℕ → ℕ → Bytes → Option (Bytes × Bytes)
take_counted max_length n bytes =
    if ltb max_length n || ltb (length bytes) n then none else some (take n bytes, drop n bytes)

-- `Reader::takeString`
pub take_string : ℕ → Bytes → Option (Bytes × Bytes)
take_string max_length bytes = elim (take_u32 bytes) [
  | none ↦ none
  | some (n, rest) ↦ take_counted max_length n rest
]

-- The loop over the arguments.
pub take_args : ℕ → Bytes → Option (List Bytes × Bytes)
take_args zero bytes = some ([], bytes)
take_args (suc n) bytes = elim (take_string max_open_argument_bytes bytes) [
  | none ↦ none
  | some (arg, rest) ↦ elim (take_args n rest) [
    | none ↦ none
    | some (args, behind) ↦ some (arg ∷ args, behind)
  ]
]

-- `find('\0') != npos`
pub has_nul : Bytes → Bool
has_nul [] = false
has_nul (b ∷ bytes) = b == 0 || has_nul bytes

-- The loop of `validateOpenRequest`.
pub validate_args : List Bytes → Result (Unit {0})
validate_args [] = ok tt
validate_args (arg ∷ args) =
    if ltb max_open_argument_bytes (length arg)
    then malformed "OPEN payload: argument exceeds the maximum"
    else if has_nul arg
    then malformed "OPEN payload: argument contains NUL"
    else validate_args args

pub validate_cwd : Bytes → Result (Unit {0})
validate_cwd cwd =
    if ltb max_open_cwd_bytes (length cwd)
    then malformed "OPEN payload: cwd exceeds the maximum"
    else if has_nul cwd
    then malformed "OPEN payload: cwd contains NUL"
    else ok tt

pub validate_argv : List Bytes → Result (Unit {0})
validate_argv [] = malformed "OPEN payload: argv must not be empty"
validate_argv (program ∷ args) =
    if ltb max_open_argc (length (program ∷ args))
    then malformed "OPEN payload: argc exceeds the maximum"
    else if length program == 0
    then malformed "OPEN payload: argv[0] must not be empty"
    else validate_args (program ∷ args)

-- `validateOpenRequest`
pub validate_open_request : OpenRequest → Result (Unit {0})
validate_open_request r = validate_argv r.argv >> validate_cwd r.cwd

pub encode_string : Bytes → Bytes
encode_string bytes = write_u32_be (length bytes % 2 ^ 32) ++ bytes

-- The loop of `encodeOpen`.
pub encode_args : List Bytes → Bytes
encode_args [] = []
encode_args (arg ∷ args) = encode_string arg ++ encode_args args

-- `encodeOpen`
pub encode_open : OpenRequest → Bytes
encode_open r =
    open_version
    ∷ (write_u32_be (length r.argv % 2 ^ 32) ++ (encode_args r.argv ++ encode_string r.cwd))

-- A take, or the error that its failure stands for.
abbrev pub or_malformed {ℓ} : {A : Type ℓ} → Option A → String → Result A
or_malformed none what = malformed what
or_malformed (some a) what = ok a

-- An early return of `decodeOpen` on a bad value.
abbrev pub guard : Bool → String → Result (Unit {0})
guard true what = malformed what
guard false what = ok tt

-- The end of `decodeOpen`: no byte may remain, and the request has to be valid.
pub at_end : Bool → OpenRequest → Result OpenRequest
at_end done r = do guard (not done) "OPEN payload: trailing bytes"; validate_open_request r; ok r

-- `decodeOpen` behind the version and the count.
pub decode_fields : ℕ → Bytes → Result OpenRequest
decode_fields argc bytes = do
  (argv, rest) ← or_malformed (take_args argc bytes) "OPEN payload: truncated argument"
  (cwd, behind) ← or_malformed (take_string max_open_cwd_bytes rest) "OPEN payload: truncated cwd"
  at_end (length behind == 0) (record { argv = argv; cwd = cwd })

-- `decodeOpen`
pub decode_open : Bytes → Result OpenRequest
decode_open payload = do
  (version, rest) ← or_malformed (take_u8 payload) "OPEN payload: missing version"
  guard (not (version == open_version)) "OPEN payload: unsupported version"
  (argc, behind) ← or_malformed (take_u32 rest) "OPEN payload: missing argc"
  guard (ltb max_open_argc argc) "OPEN payload: argc exceeds the maximum"
  decode_fields argc behind
