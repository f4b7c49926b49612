-- ===== src/Transport/Control.antt =====
-- include/psx/transport/control_payloads.hpp and src/transport/control_payloads.cpp: the EXIT and
-- WINDOW_UPDATE payloads. `ExitStatus` is that of include/psx/os/process.hpp.
pub mod RoundTrip
pub mod Tests
use pipe_shell_x.Base.{
  ℕ, ◌%◌, ◌∷◌, Bool, true, false, not, Bytes, length, drop, get_or, ltb, ◌==◌, if◌then◌else◌,
}
use pipe_shell_x.Base.Int.{ℤ, to_u32, to_i32}
use pipe_shell_x.Base.Errors.{Result, ok, err, error_of, other}
use pipe_shell_x.Transport.Wire.{write_u32_be, read_u32_be}

-- `ExitStatus::Kind`
pub data ExitKind : Type 0 where
  exited signaled terminated : ExitKind

pub record ExitStatus : Type 0 where
  pub kind : ExitKind
  pub code : ℤ

unfoldable pub kind_byte : ExitKind → ℕ
kind_byte exited = 0
kind_byte signaled = 1
kind_byte terminated = 2

-- The cast of a byte of at most 2 to a `Kind`.
unfoldable pub kind_of : ℕ → ExitKind
kind_of n = if n == 0 then exited else if n == 1 then signaled else terminated

-- `encodeExit`
pub encode_exit : ExitStatus → Bytes
encode_exit s = kind_byte s.kind ∷ write_u32_be (to_u32 s.code)

-- `decodeExit`
pub decode_exit : Bytes → Result ExitStatus
decode_exit payload =
    if not (length payload == 5)
    then err (error_of other "EXIT payload: expected 5 bytes")
    else (let kind = get_or payload 0 0 % 256 in
        if ltb 2 kind
        then err (error_of other "EXIT payload: unknown status kind")
        else ok (record { kind = kind_of kind; code = to_i32 (read_u32_be (drop 1 payload)) }))

-- `encodeWindowUpdate`
pub encode_window_update : ℕ → Bytes
encode_window_update delta = write_u32_be delta

-- `decodeWindowUpdate`
pub decode_window_update : Bytes → Result ℕ
decode_window_update payload =
    if not (length payload == 4)
    then err (error_of other "WINDOW_UPDATE payload: expected 4 bytes")
    else (let delta = read_u32_be payload in
        if delta == 0 then err (error_of other "WINDOW_UPDATE payload: zero delta") else ok delta)
