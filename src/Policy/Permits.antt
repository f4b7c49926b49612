-- ===== src/Policy/Permits.antt =====
-- The commands that a policy permits.
use pipe_shell_x.Base.{
  ℕ, suc, ◌≡◌, ◌≢◌, ◌≤◌, ◌⊎◌, refl, sym, ap, ◌∙◌, inl, inr, [], ◌∷◌, List, Option, none, some, Bool,
  true, false, ◌||◌, Bytes, length, ltb, ◌==◌, All, arith, Bool-cases, some-injective,
}
use pipe_shell_x.Text.{is_one_of, has_any, equal, is_listed}
use pipe_shell_x.Text.Lists.{or_false, equal-≡}
use pipe_shell_x.Policy.{
  Policy, Rejection, shell_metacharacters, has_shell_metacharacter, first_unsafe, validate, or_else,
  refused_name, refused_count, refused_tokens, explicit_path, not_allowed, too_many_arguments,
}

-- A byte that is none of `set`.
abbrev pub IsOther : Bytes → ℕ → Type 0
IsOther set c = All (λ d. d ≢ c) set

pub Listed : Bytes → List Bytes → Type 0
Listed s [] = ⊥
Listed s (t ∷ ts) = (s ≡ t) ⊎ Listed s ts

not_equal : (d c : ℕ) → (d == c) ≡ false → d ≢ c
not_equal d c e same = ground (arith, e)

IsOther-is_one_of : (set : Bytes) (c : ℕ) → is_one_of set c ≡ false → IsOther set c
unfolding is_one_of
IsOther-is_one_of [] c e = tt
IsOther-is_one_of (d ∷ set) c e =
    let (here, there) = or_false (d == c) (is_one_of set c) e in
    (not_equal d c here, IsOther-is_one_of set c there)

All-has_any : (set s : Bytes) → has_any set s ≡ false → All (IsOther set) s
unfolding has_any
All-has_any set [] e = tt
All-has_any set (c ∷ s) e =
    let (here, there) = or_false (is_one_of set c) (has_any set s) e in
    (IsOther-is_one_of set c here, All-has_any set s there)

Listed-is_listed : (s : Bytes) (ts : List Bytes) → is_listed s ts ≡ true → Listed s ts
unfolding is_listed Listed
Listed-is_listed s [] e = cc
Listed-is_listed s (t ∷ ts) e = elim (Bool-cases (equal s t)) [
  | inl same ↦ inl (equal-≡ s t same)
  | inr other ↦ inr (Listed-is_listed s ts (sym (ap (λ b. b || is_listed s ts) other) ∙ e))
]

All-first_unsafe :
    (argv : List Bytes) → first_unsafe argv ≡ none → All (All (IsOther shell_metacharacters)) argv
unfolding first_unsafe has_shell_metacharacter
All-first_unsafe [] e = tt
All-first_unsafe (token ∷ argv) e = elim (Bool-cases (has_any shell_metacharacters token)) [
  | inl bad ↦ absurd (let no_none : some _ ≡ none = rw bad at e in cc)
  | inr fine ↦
      let rest : first_unsafe argv ≡ none = rw fine at e in
      (All-has_any shell_metacharacters token fine, All-first_unsafe argv rest)
]

or_else-none : (r next : Option Rejection) → or_else r next ≡ none → (r ≡ none) × (next ≡ none)
unfolding or_else
or_else-none none next e = (refl, e)
or_else-none (some r) next e = cc

refused_name-none :
    (command : Bytes) (allowed : List Bytes)
    → refused_name command allowed ≡ none
    → (allowed ≡ []) ⊎ (All (IsOther (47 ∷ [])) command × Listed command allowed)
unfolding refused_name
refused_name-none command [] e = inl refl
refused_name-none command (name ∷ allowed) e = elim (Bool-cases (has_any (47 ∷ []) command)) [
  | inl path ↦ absurd (let no_none : some (explicit_path command) ≡ none = rw path at e in cc)
  | inr bare ↦ elim (Bool-cases (is_listed command (name ∷ allowed))) [
    | inl there ↦
        inr (All-has_any (47 ∷ []) command bare, Listed-is_listed command (name ∷ allowed) there)
    | inr missing ↦
        absurd (let no_none : some (not_allowed command) ≡ none = rw (bare, missing) at e in cc)
  ]
]

refused_count-none :
    (argc : ℕ) (max_args : Option ℕ) (limit : ℕ)
    → refused_count argc max_args ≡ none
    → max_args ≡ some limit
    → argc ≤ limit
unfolding refused_count
refused_count-none argc none limit e is = cc
refused_count-none argc (some n) limit e is = elim (Bool-cases (ltb n argc)) [
  | inl many ↦ absurd (let no_none : some (too_many_arguments argc n) ≡ none = rw many at e in cc)
  | inr few ↦ let same : n ≡ limit = some-injective is in ground (arith, few, same)
]

refused_tokens-none :
    (argv : List Bytes) (opted_out : Bool)
    → refused_tokens argv opted_out ≡ none
    → opted_out ≡ false
    → All (All (IsOther shell_metacharacters)) argv
unfolding refused_tokens
refused_tokens-none argv true e is = cc
refused_tokens-none argv false e is = All-first_unsafe argv e

-- What a policy asks of a command with its arguments. 47 is the slash.
pub record IsPermitted (command : Bytes) (args : List Bytes) (p : Policy) : Type 0 where
  pub listed : (p.allowed ≡ []) ⊎ (All (IsOther (47 ∷ [])) command × Listed command p.allowed)
  pub few : (limit : ℕ) → p.max_args ≡ some limit → suc (length args) ≤ limit
  pub safe :
      p.allow_shell_metacharacters ≡ false
      → All (All (IsOther shell_metacharacters)) (command ∷ args)

-- A command that is accepted is permitted: where the policy lists names, it is one of them and no path; it has no more arguments than the limit; and without the opt-out no argument has a shell metacharacter.
pub validate-IsPermitted :
    (command : Bytes) (args : List Bytes) (p : Policy)
    → validate (command ∷ args) p ≡ none
    → IsPermitted command args p
unfolding validate
validate-IsPermitted command args p e =
    let (name, others) = or_else-none (refused_name command p.allowed) _ e in
    let (count, tokens) = or_else-none (refused_count (suc (length args)) p.max_args) _ others in
    record {
      listed = refused_name-none command p.allowed name;
      few = λ limit. refused_count-none (suc (length args)) p.max_args limit count;
      safe = refused_tokens-none (command ∷ args) p.allow_shell_metacharacters tokens;
    }
