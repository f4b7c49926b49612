-- ===== src/Json/Objects/Laws.antt =====
-- How the reader of objects takes what is written in one.
use pipe_shell_x.Base.{
  ℕ, zero, suc, ◌+◌, ◌-◌, ◌*◌, ◌/◌, ◌%◌, ◌≡◌, ◌<◌, refl, ap, ◌∙◌, inl, inr, [], ◌∷◌, ◌++◌, some,
  Bool, true, false, ◌&&◌, Bytes, codes, length, ltb, leb, ◌==◌, arith, Bool-cases, length-append,
  All,
}
use pipe_shell_x.Base.Int.{pos, negsuc}
use pipe_shell_x.Text.{equal}
use pipe_shell_x.Json.{quote, boolean}
use pipe_shell_x.Json.Read.{and_then, read_front-quote}
use pipe_shell_x.Json.Objects.{
  Value, a_string, a_number, a_boolean, is_digit, all_digits, value_from, natural, negated,
  read_token, ends_token, token, starts_string, read_value, with_member, behind_member, behind_key,
  read_members,
}
use pipe_shell_x.Pipeline.Parser.{digits}

value_from-snoc :
    (n d : ℕ) (s : Bytes) → value_from n (s ++ d ∷ []) ≡ value_from n s * 10 + (d - 48)
unfolding value_from
value_from-snoc n d [] = refl
value_from-snoc n d (e ∷ s) = value_from-snoc (n * 10 + (e - 48)) d s

all_digits-snoc :
    (d : ℕ) (s : Bytes) → all_digits s ≡ true → is_digit d ≡ true → all_digits (s ++ d ∷ []) ≡ true
unfolding all_digits
all_digits-snoc d [] all here = rw here refl
all_digits-snoc d (e ∷ s) all here = elim (Bool-cases (is_digit e)) [
  | inl first ↦
      let rest : all_digits s ≡ true = rw first at all in
      rw (first, all_digits-snoc d s rest here) refl
  | inr not_one ↦ absurd (let never : false ≡ true = rw not_one at all in cc)
]

-- The digits of a number.
pub record IsNumeral (n : ℕ) (s : Bytes) : Type 0 where
  pub some_digit : 0 < length s
  pub digits_only : all_digits s ≡ true
  pub value : value_from 0 s ≡ n

pub digits-IsNumeral : (fuel n : ℕ) → n < fuel → IsNumeral n (digits fuel n)
unfolding digits value_from all_digits is_digit
digits-IsNumeral zero n enough = absurd (omega arith)
digits-IsNumeral (suc fuel) n enough = elim (Bool-cases (ltb n 10)) [
  | inl one ↦
      let a : leb 48 (48 + n) ≡ true = ground arith in
      let b : ltb (48 + n) 58 ≡ true = ground (arith, one) in
      rw (one)
        (record { some_digit = omega arith; digits_only = rw (a, b) refl; value = omega arith })
  | inr more ↦
      let front = digits-IsNumeral fuel (n / 10) (ground (arith, more, enough)) in
      let a : leb 48 (48 + n % 10) ≡ true = ground arith in
      let b : ltb (48 + n % 10) 58 ≡ true = ground arith in
      rw (more) (record {
        some_digit = omega (arith, length-append (digits fuel (n / 10)) ((48 + n % 10) ∷ []));
        digits_only =
            all_digits-snoc (48 + n % 10) (digits fuel (n / 10)) front.digits_only (rw (a, b) refl);
        value = value_from-snoc 0 (48 + n % 10) (digits fuel (n / 10)) ∙ omega (arith, front.value);
      })
]

pub natural-of : (n : ℕ) (s : Bytes) → IsNumeral n s → natural s ≡ some n
unfolding natural
natural-of n s is =
    let filled : (length s == 0) ≡ false = ground (arith, is.some_digit) in
    rw (filled, is.digits_only) (ap some is.value)

-- What stands for a value before a comma or a closing brace.
abbrev pub IsValue : Bytes → Value → Type 0
IsValue s v =
    (c : ℕ) (rest : Bytes) → ends_token c ≡ true → read_value (s ++ c ∷ rest) ≡ some (v, c ∷ rest)

pub quote-IsValue : (t : Bytes) → IsValue (quote t) (a_string t)
unfolding read_value starts_string quote and_then
quote-IsValue t c rest ends =
    ap (λ o. and_then o (λ r. some (a_string r.0, r.1))) (read_front-quote t (c ∷ rest))

token-ends :
    (s : Bytes) (c : ℕ) (rest : Bytes)
    → All (λ d. ends_token d ≡ false) s
    → ends_token c ≡ true
    → token (s ++ c ∷ rest) ≡ (s, c ∷ rest)
unfolding token
token-ends [] c rest solid ends = rw ends refl
token-ends (d ∷ s) c rest (here, solid) ends =
    rw (here) (ap (λ (r : Bytes × Bytes). (d ∷ r.0, r.1)) (token-ends s c rest solid ends))

pub token-IsValue :
    (d : ℕ) (s : Bytes) (v : Value)
    → (d == 34) ≡ false
    → All (λ e. ends_token e ≡ false) (d ∷ s)
    → read_token (d ∷ s) ≡ some v
    → IsValue (d ∷ s) v
unfolding read_value starts_string and_then
token-IsValue d s v bare solid reads c rest ends = rw (bare) (
    ap (λ (r : Bytes × Bytes). and_then (read_token r.0) (λ w. some (w, r.1)))
      (token-ends (d ∷ s) c rest solid ends)
    ∙ ap (λ o. and_then o (λ w. some (w, c ∷ rest))) reads)

pub boolean-IsValue : (b : Bool) → IsValue (boolean b) (a_boolean b)
unfolding boolean read_token ends_token equal
boolean-IsValue true =
    token-IsValue 116 (codes "rue") (a_boolean true) refl (refl, (refl, (refl, (refl, tt)))) refl
boolean-IsValue false =
    token-IsValue 102 (codes "alse") (a_boolean false) refl
      (refl, (refl, (refl, (refl, (refl, tt))))) refl

digits_solid : (s : Bytes) → all_digits s ≡ true → All (λ d. ends_token d ≡ false) s
unfolding all_digits is_digit ends_token
digits_solid [] all = tt
digits_solid (d ∷ s) all = elim (Bool-cases (leb 48 d && ltb d 58)) [
  | inl first ↦
      let rest : all_digits s ≡ true = rw first at all in
      (ground (arith, first), digits_solid s rest)
  | inr not_one ↦ absurd (let never : false ≡ true = rw not_one at all in cc)
]

pub numeral-IsValue : (n : ℕ) (s : Bytes) → IsNumeral n s → IsValue s (a_number (pos n))
unfolding all_digits is_digit read_token and_then
numeral-IsValue n [] is = absurd (omega (arith, is.some_digit))
numeral-IsValue n (d ∷ s) is = elim (Bool-cases (leb 48 d && ltb d 58)) [
  | inr not_one ↦ absurd (let never : false ≡ true = rw not_one at is.digits_only in cc)
  | inl first ↦
      let a : (d == 116) ≡ false = ground (arith, first) in
      let b : (d == 102) ≡ false = ground (arith, first) in
      let c : (d == 45) ≡ false = ground (arith, first) in
      let bare : (d == 34) ≡ false = ground (arith, first) in
      token-IsValue d s (a_number (pos n)) bare (digits_solid (d ∷ s) is.digits_only) (
        rw (a, b, c)
          (ap (λ o. and_then o (λ m. some (a_number (pos m)))) (natural-of n (d ∷ s) is)))
]

pub negative-IsValue :
    (n : ℕ) (s : Bytes) → IsNumeral (suc n) s → IsValue (45 ∷ s) (a_number (negsuc n))
unfolding read_token and_then negated ends_token
negative-IsValue n s is =
    token-IsValue 45 s (a_number (negsuc n)) refl (refl, digits_solid s is.digits_only)
      (ap (λ o. and_then o (λ m. some (a_number (negated m)))) (natural-of (suc n) s is))

read_members-key :
    (fuel : ℕ) (key s behind : Bytes) (v : Value) (c : ℕ)
    → IsValue s v
    → ends_token c ≡ true
    → read_members (suc fuel) (quote key ++ (58 ∷ (s ++ c ∷ behind)))
      ≡ behind_member key v (c ∷ behind) (read_members fuel)
unfolding read_members and_then behind_key
read_members-key fuel key s behind v c reads ends =
    ap (λ o. and_then o (λ r. behind_key r.0 r.1 (read_members fuel)))
      (read_front-quote key (58 ∷ (s ++ c ∷ behind)))
    ∙ ap (λ o. and_then o (λ r. behind_member key r.0 r.1 (read_members fuel)))
        (reads c behind ends)

pub read_members-more :
    (fuel : ℕ) (key s behind : Bytes) (v : Value)
    → IsValue s v
    → read_members (suc fuel) (quote key ++ (58 ∷ (s ++ 44 ∷ behind)))
      ≡ with_member key v (read_members fuel behind)
unfolding behind_member ends_token
read_members-more fuel key s behind v reads = read_members-key fuel key s behind v 44 reads refl

pub read_members-last :
    (fuel : ℕ) (key s : Bytes) (v : Value)
    → IsValue s v
    → read_members (suc fuel) (quote key ++ (58 ∷ (s ++ 125 ∷ []))) ≡ some ((key, v) ∷ [])
unfolding behind_member ends_token
read_members-last fuel key s v reads = read_members-key fuel key s [] v 125 reads refl
