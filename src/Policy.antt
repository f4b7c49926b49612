-- ===== src/Policy.antt =====
-- include/psx/policy/policy.hpp and src/policy/policy.cpp: the command policy. A text is the list of its
-- bytes. The message of a rejection is a constructor with what it names; a thrown error is `malformed`
-- with its line.
pub mod Permits
mod Tests
use pipe_shell_x.Base.{
  ℕ, suc, ◌+◌, ◌*◌, ◌-◌, ◌^◌, [], ◌∷◌, List, Option, none, some, Bool, true, false, not, ◌&&◌, ◌||◌,
  Bytes, length, leb, ltb, ◌==◌, if◌then◌else◌,
}
use pipe_shell_x.Text.{has_any, is_one_of, equal, span_to, trim_by, pieces, is_listed}

-- `allowed` is a set; the order of the names in it plays no part.
pub record Policy : Type 0 where
  pub allowed : List Bytes
  pub max_args : Option ℕ
  pub allow_shell_metacharacters : Bool

abbrev pub empty_policy : Policy
empty_policy = record { allowed = []; max_args = none; allow_shell_metacharacters = false }

-- `;|&$` and so on
abbrev pub shell_metacharacters : Bytes
shell_metacharacters = 59 ∷ 124 ∷ 38 ∷ 36 ∷ 96 ∷ 60 ∷ 62 ∷ 92 ∷ []

pub has_shell_metacharacter : Bytes → Bool
has_shell_metacharacter value = has_any shell_metacharacters value

pub data Problem : Type 0 where
  allow_needs_a_name max_args_needs_a_number unknown_directive : Problem

pub data Parsed : Type 0 where
  policy_of : Policy → Parsed
  malformed : ℕ → Problem → Parsed

-- The blanks of `trim`, and those that end a directive.
pub is_blank : ℕ → Bool
is_blank c = is_one_of (32 ∷ 9 ∷ 13 ∷ 10 ∷ []) c

pub ends_directive : ℕ → Bool
ends_directive c = is_one_of (32 ∷ 9 ∷ []) c

pub trim : Bytes → Bytes
trim s = trim_by is_blank s

pub is_digit : ℕ → Bool
is_digit c = leb 48 c && leb c 57

-- `std::from_chars` on all of the argument, for a `std::size_t`: digits only, and no overflow.
pub number_from : ℕ → Bytes → Option ℕ
unfolding is_digit
number_from value [] = some value
number_from value (c ∷ s) =
    let next = value * 10 + (c - 48) in
    let rest = number_from next s in if is_digit c && ltb next (2 ^ 64) then rest else none

pub number : Bytes → Option ℕ
number [] = none
number (c ∷ s) = number_from 0 (c ∷ s)

abbrev allow_text : Bytes
allow_text = 97 ∷ 108 ∷ 108 ∷ 111 ∷ 119 ∷ []

abbrev max_args_text : Bytes
max_args_text = 109 ∷ 97 ∷ 120 ∷ 45 ∷ 97 ∷ 114 ∷ 103 ∷ 115 ∷ []

-- `allow-shell-metacharacters`
abbrev metacharacters_text : Bytes
metacharacters_text =
    97 ∷ 108 ∷ 108 ∷ 111 ∷ 119 ∷ 45 ∷ 115 ∷ 104 ∷ 101 ∷ 108 ∷ 108 ∷ 45 ∷ 109 ∷ 101 ∷ 116 ∷ 97 ∷ 99
    ∷ 104 ∷ 97 ∷ 114 ∷ 97 ∷ 99 ∷ 116 ∷ 101 ∷ 114 ∷ 115 ∷ []

-- `emplace` into the set.
pub allow : Bytes → Policy → Policy
allow name p = if is_listed name p.allowed then p else record p { allowed = name ∷ p.allowed }

pub directive_on : ℕ → Bytes → Bytes → Policy → Parsed
unfolding allow number
directive_on line directive argument p =
    if equal directive allow_text
    then (if length argument == 0
        then malformed line allow_needs_a_name
        else policy_of (allow argument p))
    else if equal directive max_args_text
    then elim (number argument) [
      | none ↦ malformed line max_args_needs_a_number
      | some value ↦ policy_of (record p { max_args = some value })
    ]
    else if equal directive metacharacters_text
    then policy_of (record p { allow_shell_metacharacters = true })
    else malformed line unknown_directive

-- Whether a trimmed line is skipped: empty, or a comment of `#` or `;`.
pub is_skipped : Bytes → Bool
is_skipped [] = true
is_skipped (c ∷ s) = (c == 35) || (c == 59)

pub line_on : ℕ → Bytes → Policy → Parsed
unfolding is_skipped trim ends_directive directive_on
line_on number raw p =
    let line = trim raw in
    let (directive, rest) = span_to ends_directive line in
    if is_skipped line then policy_of p else directive_on number directive (trim rest) p

-- The loop, `number` being the line before.
pub parse_lines : ℕ → List Bytes → Policy → Parsed
unfolding line_on
parse_lines number [] p = policy_of p
parse_lines number (raw ∷ lines) p = elim (line_on (suc number) raw p) [
  | malformed line problem ↦ malformed line problem
  | policy_of p' ↦ parse_lines (suc number) lines p'
]

-- `Policy::parse`
pub parse : Bytes → Parsed
unfolding parse_lines
parse text = parse_lines 0 (pieces 10 text) empty_policy

pub data Rejection : Type 0 where
  empty_command : Rejection
  explicit_path not_allowed : Bytes → Rejection
  too_many_arguments : ℕ → ℕ → Rejection
  unsafe_metacharacter : Bytes → Rejection

pub first_unsafe : List Bytes → Option Rejection
unfolding has_shell_metacharacter
first_unsafe [] = none
first_unsafe (token ∷ argv) =
    let rest = first_unsafe argv in
    if has_shell_metacharacter token then some (unsafe_metacharacter token) else rest

-- The first rejection of two.
pub or_else : Option Rejection → Option Rejection → Option Rejection
or_else none next = next
or_else (some r) next = some r

-- The checks of the name, where names are listed; 47 is the slash.
pub refused_name : Bytes → List Bytes → Option Rejection
refused_name command [] = none
refused_name command (name ∷ allowed) =
    if has_any (47 ∷ []) command
    then some (explicit_path command)
    else if not (is_listed command (name ∷ allowed))
    then some (not_allowed command)
    else none

pub refused_count : ℕ → Option ℕ → Option Rejection
refused_count argc none = none
refused_count argc (some limit) =
    if ltb limit argc then some (too_many_arguments argc limit) else none

pub refused_tokens : List Bytes → Bool → Option Rejection
refused_tokens argv true = none
refused_tokens argv false = first_unsafe argv

-- `Policy::validate`
pub validate : List Bytes → Policy → Option Rejection
validate [] p = some empty_command
validate (command ∷ args) p = or_else (refused_name command p.allowed) (
    or_else (refused_count (suc (length args)) p.max_args)
      (refused_tokens (command ∷ args) p.allow_shell_metacharacters))
