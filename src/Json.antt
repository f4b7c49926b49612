-- ===== src/Json.antt =====
-- include/psx/json/json.hpp: JSON strings and Booleans.
pub mod Read
pub mod Objects
use pipe_shell_x.Base.{
  ℕ, zero, suc, ◌+◌, ◌/◌, ◌%◌, [], ◌∷◌, ◌++◌, Bool, true, false, Bytes, codes, ltb, ◌==◌,
  if◌then◌else◌,
}

-- A digit of `%x`.
pub hex_digit : ℕ → ℕ
hex_digit n = if ltb n 10 then 48 + n else 87 + n

-- The bytes that stand for one.
unfoldable pub escape : ℕ → Bytes
escape c =
    if c == 34
    then 92 ∷ 34 ∷ []
    else if c == 92
    then 92 ∷ 92 ∷ []
    else if c == 10
    then 92 ∷ 110 ∷ []
    else if c == 13
    then 92 ∷ 114 ∷ []
    else if c == 9
    then 92 ∷ 116 ∷ []
    else if c == 8
    then 92 ∷ 98 ∷ []
    else if c == 12
    then 92 ∷ 102 ∷ []
    else if ltb c 32
    then 92 ∷ 117 ∷ 48 ∷ 48 ∷ hex_digit (c / 16) ∷ hex_digit (c % 16) ∷ []
    else c ∷ []

-- The loop of `quote`, with the quote at the end.
unfoldable pub escaped : Bytes → Bytes
escaped [] = 34 ∷ []
escaped (c ∷ value) = escape c ++ escaped value

unfoldable pub quote : Bytes → Bytes
quote value = 34 ∷ escaped value

unfoldable pub boolean : Bool → Bytes
boolean true = codes "true"
boolean false = codes "false"
