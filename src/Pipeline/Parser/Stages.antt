-- ===== src/Pipeline/Parser/Stages.antt =====
-- How a segment of a pipe spec spells a command and its placement.
use pipe_shell_x.Base.{
  ℕ, ◌≡◌, ◌<◌, refl, sym, ap, ap₂, subst, ◌∙◌, inl, inr, [], ◌∷◌, ◌++◌, List, true, false, Bytes,
  length, ◌==◌, if◌then◌else◌, All, arith, Bool-cases, append-nil,
}
use pipe_shell_x.Base.Errors.{ok, err, error_of, invalid_argument, >>=-eq-ok, ok-injective}
use pipe_shell_x.Text.{has_any, span_to}
use pipe_shell_x.Pipeline.Parser.{
  quote, at_sign, is_space, trim, words_after, tokenize, placement_of, quoted_with, quoted_stage,
  bare_with, bare_stage, command_and_placement, invalid,
}

-- The bytes of a text that are no spaces, and words one after the other.
pub solid_bytes : Bytes → Bytes
solid_bytes [] = []
solid_bytes (c ∷ s) = let rest = solid_bytes s in if is_space c then rest else c ∷ rest

pub run_on : List Bytes → Bytes
run_on [] = []
run_on (w ∷ words) = w ++ run_on words

run_on-words_after : (s : Bytes) → (words_after s).0 ++ run_on (words_after s).1 ≡ solid_bytes s
unfolding words_after run_on solid_bytes
run_on-words_after [] = refl
run_on-words_after (c ∷ s) = elim (Bool-cases (is_space c)) [
  | inr fine ↦ simp fine (ap (λ t. c ∷ t) (run_on-words_after s))
  | inl space ↦ elim (Bool-cases (length (words_after s).0 == 0)) [
    | inl none_before ↦
        simp (space, none_before)
          (sym (ap (λ w. w ++ run_on (words_after s).1) (nil_of (words_after s).0 none_before))
            ∙ run_on-words_after s)
    | inr before ↦ simp (space, before) (run_on-words_after s)
  ]
]
  where
    nil_of : (w : Bytes) → (length w == 0) ≡ true → w ≡ []
    nil_of [] e = refl
    nil_of (c ∷ w) e = absurd (ground arith)

-- The words of a command hold all its bytes but the spaces, in their order.
pub run_on-tokenize : (command : Bytes) → run_on (tokenize command) ≡ solid_bytes command
unfolding tokenize run_on
run_on-tokenize command = elim (Bool-cases (length (words_after command).0 == 0)) [
  | inl none_left ↦ simp none_left (
      sym (ap (λ w. w ++ run_on (words_after command).1) (nil_of (words_after command).0 none_left))
      ∙ run_on-words_after command)
  | inr last ↦ simp last (run_on-words_after command)
]
  where
    nil_of : (w : Bytes) → (length w == 0) ≡ true → w ≡ []
    nil_of [] e = refl
    nil_of (c ∷ w) e = absurd (ground arith)

abbrev pub Free : ℕ → Bytes → Type 0
Free d s = All (λ c. (c == d) ≡ false) s

-- A segment without the space around it, its command and its placement.
pub data Spelled (seg command placement : Bytes) : Type 0 where
  quoted :
      (behind : Bytes)
      → seg ≡ quote ∷ (command ++ quote ∷ behind)
      → Free quote command
      → trim behind ≡ []
      → placement ≡ []
      → Spelled seg command placement
  quoted_at :
      (behind rest : Bytes)
      → seg ≡ quote ∷ (command ++ quote ∷ behind)
      → Free quote command
      → trim behind ≡ at_sign ∷ rest
      → placement ≡ trim rest
      → 0 < length placement
      → Spelled seg command placement
  bare :
      has_any (32 ∷ 9 ∷ []) seg ≡ false
      → seg ≡ command
      → Free at_sign command
      → placement ≡ []
      → Spelled seg command placement
  bare_at :
      has_any (32 ∷ 9 ∷ []) seg ≡ false
      → seg ≡ command ++ at_sign ∷ placement
      → Free at_sign command
      → 0 < length placement
      → Spelled seg command placement

-- A cut at the first byte `d`.
record Cut (d : ℕ) (s : Bytes) (r : Bytes × Bytes) : Type 0 where
  whole : r.0 ++ r.1 ≡ s
  before : Free d r.0
  at : (c : ℕ) (rest : Bytes) → r.1 ≡ c ∷ rest → c ≡ d

span_to-Cut : (d : ℕ) (s : Bytes) → Cut d s (span_to (λ c. c == d) s)
unfolding span_to
span_to-Cut d [] = record { whole = refl; before = tt; at = λ c rest none. cc }
span_to-Cut d (e ∷ s) = elim (Bool-cases (e == d)) [
  | inl here ↦ rw (here) (record {
    whole = refl;
    before = tt;
    at = λ c rest is. let same : e ≡ c = cc in ground (arith, here, same);
  })
  | inr more ↦
      let cut = span_to-Cut d s in
      rw (more)
        (record { whole = ap (λ t. e ∷ t) cut.whole; before = (more, cut.before); at = cut.at })
]

filled_of : (s : Bytes) → (length s == 0) ≡ false → 0 < length s
filled_of s e = ground (arith, e)

placement_of-Spelled :
    (seg command behind left placement : Bytes)
    → seg ≡ quote ∷ (command ++ quote ∷ behind)
    → Free quote command
    → trim behind ≡ left
    → placement_of left ≡ ok placement
    → Spelled seg command placement
unfolding placement_of invalid
placement_of-Spelled seg command behind [] placement is free left e =
    quoted behind is free left (sym (ok-injective e))
placement_of-Spelled seg command behind (c ∷ rest) placement is free left e =
    elim (Bool-cases (c == at_sign)) [
      | inr wrong ↦ absurd (
          let no_ok : err (error_of invalid_argument "expected @placement after a quoted command")
              ≡ ok placement =
            rw wrong at e in
          cc)
      | inl at_c ↦ elim (Bool-cases (length (trim rest) == 0)) [
        | inl empty ↦ absurd (
            let no_ok : err (error_of invalid_argument "empty placement after @") ≡ ok placement =
              rw (at_c, empty) at e in
            cc)
        | inr filled ↦
            let same : trim rest ≡ placement = ok-injective (rw (at_c, filled) at e) in
            let c_is : c ≡ at_sign = ground (arith, at_c) in
            quoted_at behind rest is free (left ∙ ap (λ d. d ∷ rest) c_is) (sym same)
              (subst (λ w. 0 < length w) same (filled_of (trim rest) filled))
      ]
    ]

quoted_with-Spelled :
    (seg command rest c placement : Bytes)
    → seg ≡ quote ∷ (command ++ rest)
    → Free quote command
    → ((d : ℕ) (more : Bytes) → rest ≡ d ∷ more → d ≡ quote)
    → quoted_with command rest ≡ ok (c, placement)
    → Spelled seg c placement
unfolding quoted_with invalid
quoted_with-Spelled seg command [] c placement is free at e = absurd (cc)
quoted_with-Spelled seg command (d ∷ behind) c placement is free at e =
    let (found, there, made) = >>=-eq-ok (placement_of (trim behind)) _ e in
    let pair : (command, found) ≡ (c, placement) = ok-injective made in
    let spelled =
      placement_of-Spelled seg command behind (trim behind) found
        (is ∙ ap (λ k. quote ∷ (command ++ k ∷ behind)) (at d behind refl)) free refl there in
    subst (λ (r : Bytes × Bytes). Spelled seg r.0 r.1) pair spelled

bare_with-Spelled :
    (seg command rest c placement : Bytes)
    → has_any (32 ∷ 9 ∷ []) seg ≡ false
    → command ++ rest ≡ seg
    → Free at_sign command
    → ((d : ℕ) (more : Bytes) → rest ≡ d ∷ more → d ≡ at_sign)
    → bare_with command rest ≡ ok (c, placement)
    → Spelled seg c placement
unfolding bare_with invalid
bare_with-Spelled seg command [] c placement plain whole free at e =
    subst (λ (r : Bytes × Bytes). Spelled seg r.0 r.1) (ok-injective e)
      (bare plain (sym whole ∙ append-nil command) free refl)
bare_with-Spelled seg command (d ∷ more) c placement plain whole free at e =
    elim (Bool-cases (length more == 0)) [
      | inl empty ↦ absurd (
          let no_ok : err (error_of invalid_argument "empty placement after @")
              ≡ ok (c, placement) =
            rw empty at e in
          cc)
      | inr filled ↦
          let pair : (command, more) ≡ (c, placement) = ok-injective (rw filled at e) in
          subst (λ (r : Bytes × Bytes). Spelled seg r.0 r.1) pair
            (bare_at plain (sym whole ∙ ap (λ k. command ++ k ∷ more) (at d more refl)) free
              (filled_of more filled))
    ]

bare_stage-Spelled :
    (seg c placement : Bytes) → bare_stage seg ≡ ok (c, placement) → Spelled seg c placement
unfolding bare_stage invalid
bare_stage-Spelled seg c placement e = elim (Bool-cases (has_any (32 ∷ 9 ∷ []) seg)) [
  | inl spaced ↦ absurd (
      let no_ok : err
            (error_of invalid_argument "unquoted command contains spaces; wrap it in single quotes")
          ≡ ok (c, placement) =
        rw spaced at e in
      cc)
  | inr plain ↦
      let cut = span_to-Cut at_sign seg in
      let goes : bare_with (span_to (λ d. d == at_sign) seg).0 (span_to (λ d. d == at_sign) seg).1
          ≡ ok (c, placement) =
        rw plain at e in
      bare_with-Spelled seg _ _ c placement plain cut.whole cut.before cut.at goes
]

-- What is accepted of a segment spells its command and its placement.
pub command_and_placement-Spelled :
    (seg c placement : Bytes)
    → command_and_placement seg ≡ ok (c, placement)
    → Spelled seg c placement
unfolding command_and_placement quoted_stage invalid
command_and_placement-Spelled [] c placement e = absurd (cc)
command_and_placement-Spelled (d ∷ seg) c placement e = elim (Bool-cases (d == quote)) [
  | inl starts ↦
      let cut = span_to-Cut quote seg in
      let goes : quoted_with (span_to (λ k. k == quote) seg).0 (span_to (λ k. k == quote) seg).1
          ≡ ok (c, placement) =
        rw starts at e in
      let d_is : d ≡ quote = ground (arith, starts) in
      quoted_with-Spelled (d ∷ seg) _ _ c placement (ap₂ (λ k t. k ∷ t) d_is (sym cut.whole))
        cut.before cut.at goes
  | inr plain ↦ bare_stage-Spelled (d ∷ seg) c placement (rw plain at e)
]
