-- ===== src/Json/Objects.antt =====
-- A reader of flat JSON objects after RFC 8259: strings, integers and Booleans, without white space.
pub mod Laws
use pipe_shell_x.Base.{
  ℕ, zero, suc, ◌+◌, ◌-◌, ◌*◌, ◌/◌, ◌%◌, ◌≡◌, ◌≤◌, ◌<◌, refl, sym, ap, ◌∙◌, inl, inr, [], ◌∷◌, ◌++◌,
  List, Option, none, some, Bool, true, false, not, ◌&&◌, ◌||◌, Bytes, codes, length, ltb, leb,
  ◌==◌, if◌then◌else◌, arith, Bool-cases, append_assoc, length-append, All,
}
use pipe_shell_x.Base.Int.{ℤ, pos, negsuc}
use pipe_shell_x.Text.{equal}
use pipe_shell_x.Json.{quote, boolean}
use pipe_shell_x.Json.Read.{and_then, read_front, read_front-quote}

pub data Value : Type 0 where
  a_string : Bytes → Value
  a_number : ℤ → Value
  a_boolean : Bool → Value

pub is_digit : ℕ → Bool
is_digit c = leb 48 c && ltb c 58

pub all_digits : Bytes → Bool
all_digits [] = true
all_digits (c ∷ s) = let rest = all_digits s in is_digit c && rest

-- The number that digits give behind the number `n`.
pub value_from : ℕ → Bytes → ℕ
value_from n [] = n
value_from n (d ∷ s) = value_from (n * 10 + (d - 48)) s

pub natural : Bytes → Option ℕ
natural s = if not (length s == 0) && all_digits s then some (value_from 0 s) else none

pub negated : ℕ → ℤ
negated zero = pos 0
negated (suc n) = negsuc n

-- A value that is no string, by its first byte.
pub read_token : Bytes → Option Value
read_token [] = none
read_token (c ∷ s) =
    if c == 116
    then (if equal s (codes "rue") then some (a_boolean true) else none)
    else if c == 102
    then (if equal s (codes "alse") then some (a_boolean false) else none)
    else if c == 45
    then and_then (natural s) (λ n. some (a_number (negated n)))
    else and_then (natural (c ∷ s)) (λ n. some (a_number (pos n)))

-- A comma or a closing brace.
pub ends_token : ℕ → Bool
ends_token c = (c == 44) || (c == 125)

pub token : Bytes → Bytes × Bytes
token [] = ([], [])
token (c ∷ s) =
    let (front, rest) = token s in if ends_token c then ([], c ∷ s) else (c ∷ front, rest)

pub starts_string : Bytes → Bool
starts_string [] = false
starts_string (c ∷ _) = c == 34

pub read_value : Bytes → Option (Value × Bytes)
read_value s =
    if starts_string s
    then and_then (read_front s) (λ r. some (a_string r.0, r.1))
    else (let (front, rest) = token s in and_then (read_token front) (λ v. some (v, rest)))

abbrev pub Members : Type 0
Members = List (Bytes × Value)

unfoldable pub with_member : Bytes → Value → Option Members → Option Members
with_member key v none = none
with_member key v (some members) = some ((key, v) ∷ members)

-- What is behind a member: the closing brace that ends the text, or a comma and the other members.
pub behind_member : Bytes → Value → Bytes → (Bytes → Option Members) → Option Members
behind_member key v [] read = none
behind_member key v (c ∷ s) read =
    if c == 44
    then with_member key v (read s)
    else if (c == 125) && (length s == 0)
    then some ((key, v) ∷ [])
    else none

pub behind_key : Bytes → Bytes → (Bytes → Option Members) → Option Members
behind_key key [] read = none
behind_key key (c ∷ s) read =
    if c == 58 then and_then (read_value s) (λ r. behind_member key r.0 r.1 read) else none

pub read_members : ℕ → Bytes → Option Members
read_members zero s = none
read_members (suc fuel) s = and_then (read_front s) (λ r. behind_key r.0 r.1 (read_members fuel))

unfoldable pub read_object : Bytes → Option Members
read_object [] = none
read_object (c ∷ s) = if c == 123 then read_members (length s) s else none
