-- ===== src/Json/Read.antt =====
-- A reader of JSON strings after RFC 8259, for escapes of ASCII characters, to which `quote` is held.
use pipe_shell_x.Base.{
  ℕ, zero, suc, ◌+◌, ◌-◌, ◌*◌, ◌/◌, ◌%◌, ◌≡◌, ◌≢◌, ◌≤◌, ◌<◌, refl, sym, ap, ◌∙◌, inl, inr, [], ◌∷◌,
  ◌++◌, Option, none, some, false, Bytes, length, ltb, ◌==◌, if◌then◌else◌, arith, Bool-cases,
  ==_iff, length-append, All, leb, ◌&&◌, Bool, true, append_assoc, append-nil,
}
use pipe_shell_x.Json.{hex_digit, escape, escaped, quote}

-- The byte that a letter behind a backslash stands for.
pub letter : ℕ → Option ℕ
letter l =
    if l == 34
    then some 34
    else if l == 92
    then some 92
    else if l == 47
    then some 47
    else if l == 98
    then some 8
    else if l == 102
    then some 12
    else if l == 110
    then some 10
    else if l == 114
    then some 13
    else if l == 116
    then some 9
    else none

-- The value of a hexadecimal digit.
pub hex_value : ℕ → Option ℕ
hex_value d =
    if leb 48 d && ltb d 58
    then some (d - 48)
    else if leb 97 d && ltb d 103
    then some (d - 87)
    else if leb 65 d && ltb d 71
    then some (d - 55)
    else none

unfoldable pub and_then {ℓ κ} : {A : Type ℓ} {B : Type κ} → Option A → (A → Option B) → Option B
and_then none next = none
and_then (some a) next = next a

-- The number that the next digits give behind the number `n`, and what is behind them.
pub read_hex : ℕ → ℕ → Bytes → Option (ℕ × Bytes)
read_hex zero n s = some (n, s)
read_hex (suc count) n [] = none
read_hex (suc count) n (d ∷ s) = and_then (hex_value d) (λ v. read_hex count (n * 16 + v) s)

pub ascii : ℕ × Bytes → Option (ℕ × Bytes)
ascii (n, s) = if ltb n 128 then some (n, s) else none

pub lettered_by : Bytes → Option ℕ → Option (ℕ × Bytes)
lettered_by s none = none
lettered_by s (some c) = some (c, s)

-- What is behind a backslash: the byte that it stands for, and the rest. Of the characters that four
-- digits name, those below 128 are read, which one byte stands for.
pub read_escape : Bytes → Option (ℕ × Bytes)
read_escape [] = none
read_escape (l ∷ s) = if l == 117 then and_then (read_hex 4 0 s) ascii else lettered_by s (letter l)

pub onto : ℕ → Option (Bytes × Bytes) → Option (Bytes × Bytes)
onto c none = none
onto c (some (value, rest)) = some (c ∷ value, rest)

pub onto_read : Option (ℕ × Bytes) → (Bytes → Option (Bytes × Bytes)) → Option (Bytes × Bytes)
onto_read none read = none
onto_read (some (c, s)) read = onto c (read s)

-- The string up to its closing quote, and what is behind that; no control byte stands in it.
pub read_body : ℕ → Bytes → Option (Bytes × Bytes)
read_body zero s = none
read_body (suc fuel) [] = none
read_body (suc fuel) (c ∷ s) =
    if c == 34
    then some ([], s)
    else if c == 92
    then onto_read (read_escape s) (read_body fuel)
    else if ltb c 32
    then none
    else onto c (read_body fuel s)

-- A string at the front of a text, and the rest.
pub read_front : Bytes → Option (Bytes × Bytes)
read_front [] = none
read_front (c ∷ s) = if c == 34 then read_body (length s) s else none

pub whole : Bytes × Bytes → Option Bytes
whole (value, []) = some value
whole (value, _ ∷ _) = none

-- A text that is one string.
pub read_string : Bytes → Option Bytes
read_string s = and_then (read_front s) whole

-- How a byte is written: by itself, by a letter, or by its digits.
data Written (c : ℕ) : Bytes → Type 0 where
  plain : c ≢ 34 → c ≢ 92 → 32 ≤ c → Written c (c ∷ [])
  lettered : (l : ℕ) → 32 ≤ l → l ≢ 117 → letter l ≡ some c → Written c (92 ∷ l ∷ [])
  numbered : c < 32 → Written c (92 ∷ 117 ∷ 48 ∷ 48 ∷ hex_digit (c / 16) ∷ hex_digit (c % 16) ∷ [])

by_byte :
    (c n l : ℕ) (rest : Bytes)
    → 32 ≤ l
    → l ≢ 117
    → letter l ≡ some n
    → ((c == n) ≡ false → Written c rest)
    → Written c (if c == n then 92 ∷ l ∷ [] else rest)
by_byte c n l rest high named known otherwise = elim (Bool-cases (c == n)) [
  | inl is ↦ rw (is) (lettered l high named (known ∙ ap some (sym ((==_iff c n).0 is))))
  | inr not_n ↦ rw (not_n) (otherwise not_n)
]

escape-Written : (c : ℕ) → Written c (escape c)
unfolding escape letter
escape-Written c = by_byte c 34 34 _ (omega arith) (omega arith) refl (λ n34.
    by_byte c 92 92 _ (omega arith) (omega arith) refl (λ n92.
      by_byte c 10 110 _ (omega arith) (omega arith) refl (λ _.
        by_byte c 13 114 _ (omega arith) (omega arith) refl (λ _.
          by_byte c 9 116 _ (omega arith) (omega arith) refl (λ _.
            by_byte c 8 98 _ (omega arith) (omega arith) refl
              (λ _. by_byte c 12 102 _ (omega arith) (omega arith) refl (λ _. last n34 n92)))))))
  where
    last :
        (c == 34) ≡ false
        → (c == 92) ≡ false
        → Written c (
            if ltb c 32
            then 92 ∷ 117 ∷ 48 ∷ 48 ∷ hex_digit (c / 16) ∷ hex_digit (c % 16) ∷ []
            else c ∷ [])
    last n34 n92 = elim (Bool-cases (ltb c 32)) [
      | inl low ↦ rw (low) (numbered (ground (arith, low)))
      | inr high ↦
          rw (high) (plain (ground (arith, n34)) (ground (arith, n92)) (ground (arith, high)))
    ]

hex_value-hex_digit : (n : ℕ) → n < 16 → hex_value (hex_digit n) ≡ some n
unfolding hex_value hex_digit
hex_value-hex_digit n h = elim (Bool-cases (ltb n 10)) [
  | inl low ↦
      let a : leb 48 (48 + n) ≡ true = ground arith in
      let b : ltb (48 + n) 58 ≡ true = ground (arith, low) in
      let back : 48 + n - 48 ≡ n = omega arith in rw (low, a, b, back) refl
  | inr high ↦
      let a : ltb (87 + n) 58 ≡ false = ground arith in
      let b : leb 97 (87 + n) ≡ true = ground (arith, high) in
      let c : ltb (87 + n) 103 ≡ true = ground (arith, h) in
      let d : leb 48 (87 + n) ≡ true = ground arith in
      let back : 87 + n - 87 ≡ n = omega arith in rw (high, d, a, b, c, back) refl
]

read_hex-digit :
    (count n d v : ℕ) (s : Bytes)
    → hex_value d ≡ some v
    → read_hex (suc count) n (d ∷ s) ≡ read_hex count (n * 16 + v) s
unfolding read_hex and_then
read_hex-digit count n d v s e = ap (λ o. and_then o (λ w. read_hex count (n * 16 + w) s)) e

zero_digit : hex_value 48 ≡ some 0
unfolding hex_value
zero_digit = refl

-- The four digits of a byte below 32.
read_hex-four :
    (c : ℕ) (s : Bytes)
    → c < 32
    → read_hex 4 0 (48 ∷ 48 ∷ hex_digit (c / 16) ∷ hex_digit (c % 16) ∷ s) ≡ some (c, s)
unfolding read_hex
read_hex-four c s small =
    let high_digit = hex_value-hex_digit (c / 16) (omega (arith, small)) in
    let low_digit = hex_value-hex_digit (c % 16) (omega arith) in
    let high = hex_digit (c / 16) in
    let low = hex_digit (c % 16) in
    let all : (((0 * 16 + 0) * 16 + 0) * 16 + c / 16) * 16 + c % 16 ≡ c = omega arith in
    read_hex-digit 3 0 48 0 (48 ∷ high ∷ low ∷ s) zero_digit
    ∙ read_hex-digit 2 (0 * 16 + 0) 48 0 (high ∷ low ∷ s) zero_digit
    ∙ read_hex-digit 1 ((0 * 16 + 0) * 16 + 0) high (c / 16) (low ∷ s) high_digit
    ∙ read_hex-digit 0 (((0 * 16 + 0) * 16 + 0) * 16 + c / 16) low (c % 16) s low_digit
    ∙ ap (λ n. some (n, s)) all

-- A byte that is written is read.
read-Written :
    (c : ℕ) (text : Bytes) (fuel : ℕ) (behind : Bytes)
    → Written c text
    → read_body (suc fuel) (text ++ behind) ≡ onto c (read_body fuel behind)
unfolding read_body read_escape onto_read and_then ascii lettered_by
read-Written c _ fuel behind (plain n34 n92 high) =
    let a : (c == 34) ≡ false = ground (arith, n34) in
    let b : (c == 92) ≡ false = ground (arith, n92) in
    let l : ltb c 32 ≡ false = ground (arith, high) in rw (a, b, l) refl
read-Written c _ fuel behind (lettered l high named known) =
    let a : (l == 117) ≡ false = ground (arith, named) in
    rw (a) (ap (λ o. onto_read (lettered_by behind o) (read_body fuel)) known)
read-Written c _ fuel behind (numbered low) =
    let small : ltb c 128 ≡ true = ground (arith, low) in
    ap (λ o. onto_read (and_then o ascii) (read_body fuel)) (read_hex-four c behind low)
    ∙ ap (λ (b : Bool). onto_read (if b then some (c, behind) else none) (read_body fuel)) small

escape_length : (c : ℕ) (text : Bytes) → Written c text → 0 < length text
escape_length c _ (plain n34 n92 high) = omega arith
escape_length c _ (lettered l high named known) = omega arith
escape_length c _ (numbered low) = omega arith

read_end : (fuel : ℕ) (behind : Bytes) → read_body (suc fuel) (34 ∷ behind) ≡ some ([], behind)
unfolding read_body
read_end fuel behind = refl

onto-some :
    (c : ℕ) (value behind : Bytes) → onto c (some (value, behind)) ≡ some (c ∷ value, behind)
unfolding onto
onto-some c value behind = refl

read-escaped :
    (fuel : ℕ) (value behind : Bytes)
    → length (escaped value) ≤ fuel
    → read_body fuel (escaped value ++ behind) ≡ some (value, behind)
unfolding escaped
read-escaped zero [] behind enough = absurd (omega arith)
read-escaped (suc fuel) [] behind enough = read_end fuel behind
read-escaped zero (c ∷ value) behind enough = absurd (
    omega (
      arith,
      length-append (escape c) (escaped value),
      escape_length c (escape c) (escape-Written c),
    ))
read-escaped (suc fuel) (c ∷ value) behind enough =
    let less : length (escaped value) ≤ fuel = omega (
      arith,
      length-append (escape c) (escaped value),
      escape_length c (escape c) (escape-Written c),
    ) in
    ap (read_body (suc fuel)) (append_assoc (escape c) (escaped value) behind)
    ∙ read-Written c (escape c) fuel (escaped value ++ behind) (escape-Written c)
    ∙ ap (onto c) (read-escaped fuel value behind less)
    ∙ onto-some c value behind

-- What is quoted is read at the front of a text.
pub read_front-quote :
    (value behind : Bytes) → read_front (quote value ++ behind) ≡ some (value, behind)
unfolding read_front quote
read_front-quote value behind =
    read-escaped (length (escaped value ++ behind)) value behind
      (omega (arith, length-append (escaped value) behind))

pub read_string-quote : (value : Bytes) → read_string (quote value) ≡ some value
unfolding read_string and_then whole
read_string-quote value =
    ap (λ s. and_then (read_front s) whole) (sym (append-nil (quote value)))
    ∙ ap (λ o. and_then o whole) (read_front-quote value [])

-- No control byte stands in a quoted string, so no line break either.
abbrev pub Printable : Bytes → Type 0
Printable s = All (λ c. 32 ≤ c) s

pub Printable-append : (s t : Bytes) → Printable s → Printable t → Printable (s ++ t)
Printable-append [] t p q = q
Printable-append (c ∷ s) t (here, p) q = (here, Printable-append s t p q)

hex_digit-high : (n : ℕ) → 32 ≤ hex_digit n
unfolding hex_digit
hex_digit-high n = ground arith

Written-Printable : (c : ℕ) (text : Bytes) → Written c text → Printable text
Written-Printable c _ (plain n34 n92 high) = (high, tt)
Written-Printable c _ (lettered l high named known) = (omega arith, (high, tt))
Written-Printable c _ (numbered low) = (
  omega arith,
  (
    omega arith,
    (omega arith, (omega arith, (hex_digit-high (c / 16), (hex_digit-high (c % 16), tt)))),
  ),
)

escaped-Printable : (value : Bytes) → Printable (escaped value)
unfolding escaped
escaped-Printable [] = (omega arith, tt)
escaped-Printable (c ∷ value) =
    Printable-append (escape c) (escaped value) (Written-Printable c (escape c) (escape-Written c))
      (escaped-Printable value)

pub quote-Printable : (value : Bytes) → Printable (quote value)
unfolding quote
quote-Printable value = (omega arith, escaped-Printable value)

-- What is quoted is read back, and no control byte stands in it, so no line break either.
pub quote-read_string :
    (value : Bytes) → (read_string (quote value) ≡ some value) × Printable (quote value)
quote-read_string value = (read_string-quote value, quote-Printable value)
