-- ===== src/Transport/Open/Tests.antt =====
-- OPEN payloads at concrete inputs.
use pipe_shell_x.Base.{◌≡◌, refl, [], ◌∷◌, Bytes, arith}
use pipe_shell_x.Base.Errors.{ok}
use pipe_shell_x.Transport.Wire.{read_u32_be}
use pipe_shell_x.Transport.Open.{
  OpenRequest, validate_open_request, encode_open, decode_open, take_u8, take_u32, take_counted,
  take_string, take_args, has_nul, validate_args, validate_cwd, validate_argv, at_end,
  decode_fields,
}
use pipe_shell_x.Transport.Open.RoundTrip.{decode_open-encode_open}
use pipe_shell_x.Transport.Open.Sound.{decode_open_sound}

-- `ls /`
abbrev pub a_request : OpenRequest
a_request = record { argv = (108 ∷ 115 ∷ []) ∷ (47 ∷ []) ∷ []; cwd = 47 ∷ [] }

pub a_request-is_valid : validate_open_request a_request ≡ ok tt
unfolding validate_open_request validate_argv validate_args has_nul validate_cwd
a_request-is_valid = refl

abbrev request_bytes : Bytes
request_bytes =
    1 ∷ 0 ∷ 0 ∷ 0 ∷ 2 ∷ 0 ∷ 0 ∷ 0 ∷ 2 ∷ 108 ∷ 115 ∷ 0 ∷ 0 ∷ 0 ∷ 1 ∷ 47 ∷ 0 ∷ 0 ∷ 0 ∷ 1 ∷ 47 ∷ []

decode_open-encode_open_example : decode_open (encode_open a_request) ≡ ok a_request
decode_open-encode_open_example = decode_open-encode_open a_request a_request-is_valid

decode_open_sound_example :
    (validate_open_request a_request ≡ ok tt) × (encode_open a_request ≡ request_bytes)
unfolding decode_open take_u8 take_u32 read_u32_be decode_fields take_args take_string take_counted
    at_end validate_open_request validate_argv validate_args has_nul validate_cwd
decode_open_sound_example = decode_open_sound request_bytes a_request (ground arith) refl
