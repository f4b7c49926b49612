-- ===== src/Transport/Wire.antt =====
-- include/psx/transport/wire.hpp: 32-bit words in network byte order.
use pipe_shell_x.Base.{
  ℕ, ◌+◌, ◌*◌, ◌/◌, ◌%◌, ◌^◌, ◌≡◌, ◌<◌, ◌≤◌, [], ◌∷◌, ◌++◌, Bytes, length, All, refl, arith,
}

-- The bytes that `writeU32BE` appends.
unfoldable pub write_u32_be : ℕ → Bytes
write_u32_be value =
    (value / 2 ^ 24 % 256) ∷ (value / 2 ^ 16 % 256) ∷ (value / 2 ^ 8 % 256) ∷ (value % 256) ∷ []

-- `readU32BE`. The shifted bytes have no bit in common, so `|` adds them. The callers see to it that
-- four bytes are there.
unfoldable pub read_u32_be : Bytes → ℕ
read_u32_be (a ∷ b ∷ c ∷ d ∷ rest) =
    (a % 256) * 2 ^ 24 + (b % 256) * 2 ^ 16 + (c % 256) * 2 ^ 8 + d % 256
read_u32_be bytes = 0

pub length-write_u32_be : (value : ℕ) → length (write_u32_be value) ≡ 4
unfolding write_u32_be
length-write_u32_be value = refl

pub read_u32_be-write_u32_be :
    (value : ℕ) (rest : Bytes) → value < 2 ^ 32 → read_u32_be (write_u32_be value ++ rest) ≡ value
unfolding write_u32_be read_u32_be
read_u32_be-write_u32_be value rest h = omega arith

pub read_u32_be-lt : (bytes : Bytes) → read_u32_be bytes < 2 ^ 32
unfolding read_u32_be
read_u32_be-lt [] = omega arith
read_u32_be-lt (a ∷ []) = omega arith
read_u32_be-lt (a ∷ b ∷ []) = omega arith
read_u32_be-lt (a ∷ b ∷ c ∷ []) = omega arith
read_u32_be-lt (a ∷ b ∷ c ∷ d ∷ rest) = omega arith

pub read_u32_be-append :
    (bytes more : Bytes) → 4 ≤ length bytes → read_u32_be (bytes ++ more) ≡ read_u32_be bytes
unfolding read_u32_be
read_u32_be-append [] more h = absurd (omega arith)
read_u32_be-append (a ∷ []) more h = absurd (omega arith)
read_u32_be-append (a ∷ b ∷ []) more h = absurd (omega arith)
read_u32_be-append (a ∷ b ∷ c ∷ []) more h = absurd (omega arith)
read_u32_be-append (a ∷ b ∷ c ∷ d ∷ bytes) more h = refl

-- A byte of the wire.
abbrev pub IsByte : ℕ → Type 0
IsByte b = b < 256

-- Four bytes are the encoding of the word that they are read as.
pub write_u32_be-read_u32_be :
    (bytes rest : Bytes)
    → length bytes ≡ 4
    → All IsByte bytes
    → write_u32_be (read_u32_be (bytes ++ rest)) ≡ bytes
unfolding write_u32_be read_u32_be
write_u32_be-read_u32_be [] rest e v = absurd (omega arith)
write_u32_be-read_u32_be (a ∷ []) rest e v = absurd (omega arith)
write_u32_be-read_u32_be (a ∷ b ∷ []) rest e v = absurd (omega arith)
write_u32_be-read_u32_be (a ∷ b ∷ c ∷ []) rest e v = absurd (omega arith)
write_u32_be-read_u32_be (a ∷ b ∷ c ∷ d ∷ []) rest e v = ground arith
write_u32_be-read_u32_be (a ∷ b ∷ c ∷ d ∷ x ∷ bytes) rest e v = absurd (omega arith)
