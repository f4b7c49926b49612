-- ===== src/Pipeline/Parser/Quotes.antt =====
-- The split of a pipe spec at the bars outside of quotes.
use pipe_shell_x.Base.{
  ℕ, ◌≡◌, ◌<◌, refl, sym, ap, subst, ◌∙◌, inl, inr, [], ◌∷◌, ◌++◌, List, Bool, true, false, not,
  ◌&&◌, Bytes, length, ◌==◌, if◌then◌else◌, All, arith, Bool-cases,
}
use pipe_shell_x.Pipeline.Parser.{bar, quote, onto_first, split}

-- Whether the number of quotes in a text is odd.
pub odd_quotes : Bytes → Bool
odd_quotes [] = false
odd_quotes (c ∷ s) = let rest = odd_quotes s in if c == quote then not rest else rest

-- A segment: its quotes are closed, and each bar in it stands behind an odd number of quotes.
pub record IsSegment (s : Bytes) : Type 0 where
  pub closed : odd_quotes s ≡ false
  pub bars : (front behind : Bytes) → s ≡ front ++ bar ∷ behind → odd_quotes front ≡ true

-- Whether a quote is open behind a text, `q` saying whether one is before it.
abbrev flip : Bool → Bool → Bool
flip q b = if q then not b else b

abbrev pub now : Bool → ℕ → Bool
now q c = if c == quote then not q else q

flip-now :
    (q : Bool) (c : ℕ) (s : Bytes) → flip (now q c) (odd_quotes s) ≡ flip q (odd_quotes (c ∷ s))
unfolding odd_quotes
flip-now q c s = elim (Bool-cases (c == quote)) [
  | inr other_byte ↦ rw (other_byte) refl
  | inl is_quote ↦ rw (is_quote) (twice q (odd_quotes s))
]
  where
    twice : (a b : Bool) → flip (not a) b ≡ flip a (not b)
    twice true true = refl
    twice true false = refl
    twice false true = refl
    twice false false = refl

-- The first segment, behind a text that leaves a quote open if `q` holds, and the others.
record IsSplit (q end : Bool) (first : Bytes) (rest : List Bytes) : Type 0 where
  closed : flip q (odd_quotes first) ≡ false
  bars : (front behind : Bytes) → first ≡ front ++ bar ∷ behind → flip q (odd_quotes front) ≡ true
  others : All IsSegment rest

abbrev IsSplitOf : Bool → List Bytes → Type 0
IsSplitOf q [] = Unit
IsSplitOf q (first ∷ rest) = IsSplit q false first rest

first_byte : (c d : ℕ) (s t : Bytes) → c ∷ s ≡ d ∷ t → c ≡ d
first_byte c d s t e = cc

behind_first : (c d : ℕ) (s t : Bytes) → c ∷ s ≡ d ∷ t → s ≡ t
behind_first c d s t e = cc

cut-IsSplit :
    (q : Bool) (c : ℕ) (segments : List Bytes)
    → ((c == bar) && not q) ≡ true
    → 0 < length segments
    → IsSplitOf (now q c) segments
    → IsSplitOf q ([] ∷ segments)
unfolding odd_quotes
cut-IsSplit q c [] e filled is = absurd (omega arith)
cut-IsSplit true c (first ∷ rest) e filled is = absurd (ground (arith, e))
cut-IsSplit false c (first ∷ rest) e filled is =
    let is_bar : c ≡ bar = ground (arith, e) in
    let no_quote : (c == quote) ≡ false = ground (arith, is_bar) in
    let outside : now false c ≡ false = ap (λ b. if b then true else false) no_quote in
    record {
      closed = refl;
      bars = λ front behind is_none. absurd (nothing_there front behind is_none);
      others = (
        record {
          closed = ap (λ b. flip b (odd_quotes first)) (sym outside) ∙ is.closed;
          bars = λ front behind there.
              ap (λ b. flip b (odd_quotes front)) (sym outside) ∙ is.bars front behind there;
        },
        is.others,
      );
    }
  where
    nothing_there : (front behind : Bytes) → ¬ ([] ≡ front ++ bar ∷ behind)
    nothing_there [] behind none = cc
    nothing_there (d ∷ front) behind none = cc

onto-IsSplit :
    (q : Bool) (c : ℕ) (segments : List Bytes)
    → ((c == bar) && not q) ≡ false
    → 0 < length segments
    → IsSplitOf (now q c) segments
    → IsSplitOf q (onto_first c segments)
unfolding odd_quotes onto_first
onto-IsSplit q c [] e filled is = absurd (omega arith)
onto-IsSplit q c (first ∷ rest) e filled is = record {
  closed = sym (flip-now q c first) ∙ is.closed;
  bars = barred;
  others = is.others;
}
  where
    in_quote : (p : Bool) → ((c == bar) && not p) ≡ false → c ≡ bar → flip p false ≡ true
    in_quote true none is_bar = refl
    in_quote false none is_bar = absurd (ground (arith, none, is_bar))

    barred :
        (front behind : Bytes)
        → c ∷ first ≡ front ++ bar ∷ behind
        → flip q (odd_quotes front) ≡ true
    barred [] behind there = in_quote q e (first_byte c bar first behind there)
    barred (d ∷ front) behind there =
        ap (λ x. flip q (odd_quotes (x ∷ front))) (sym (first_byte c d first _ there))
        ∙ sym (flip-now q c front)
        ∙ is.bars front behind (behind_first c d first _ there)

pub onto_first-some : (c : ℕ) (segments : List Bytes) → 0 < length (onto_first c segments)
unfolding onto_first
onto_first-some c [] = omega arith
onto_first-some c (segment ∷ segments) = omega arith

pub split_cuts :
    (q : Bool) (c : ℕ) (spec : Bytes)
    → ((c == bar) && not q) ≡ true
    → (split q (c ∷ spec)).1 ≡ [] ∷ (split (now q c) spec).1
unfolding split
split_cuts q c spec e = rw e refl

pub split_goes_on :
    (q : Bool) (c : ℕ) (spec : Bytes)
    → ((c == bar) && not q) ≡ false
    → (split q (c ∷ spec)).1 ≡ onto_first c (split (now q c) spec).1
unfolding split
split_goes_on q c spec e = rw e refl

pub split-some : (q : Bool) (spec : Bytes) → 0 < length (split q spec).1
unfolding split
split-some q [] = omega arith
split-some q (c ∷ spec) = elim (Bool-cases ((c == bar) && not q)) [
  | inl e ↦ rw (split_cuts q c spec e) (omega arith)
  | inr e ↦ rw (split_goes_on q c spec e) (onto_first-some c (split (now q c) spec).1)
]

split_end : (q : Bool) (c : ℕ) (spec : Bytes) → (split q (c ∷ spec)).0 ≡ (split (now q c) spec).0
unfolding split
split_end q c spec = elim (Bool-cases ((c == bar) && not q)) [
  | inl e ↦ rw e refl
  | inr e ↦ rw e refl
]

split-IsSplit : (q : Bool) (spec : Bytes) → (split q spec).0 ≡ false → IsSplitOf q (split q spec).1
unfolding split odd_quotes
split-IsSplit q [] closed = record {
  closed = still_out q closed;
  bars = λ front behind is_none. absurd (nothing_there front behind is_none);
  others = tt;
}
  where
    still_out : (b : Bool) → b ≡ false → flip b false ≡ false
    still_out true e = cc
    still_out false e = refl

    nothing_there : (front behind : Bytes) → ¬ ([] ≡ front ++ bar ∷ behind)
    nothing_there [] behind none = cc
    nothing_there (d ∷ front) behind none = cc
split-IsSplit q (c ∷ spec) closed =
    let rest = split-IsSplit (now q c) spec (sym (split_end q c spec) ∙ closed) in
    elim (Bool-cases ((c == bar) && not q)) [
      | inl e ↦
          subst (IsSplitOf q) (sym (split_cuts q c spec e))
            (cut-IsSplit q c (split (now q c) spec).1 e (split-some (now q c) spec) rest)
      | inr e ↦
          subst (IsSplitOf q) (sym (split_goes_on q c spec e))
            (onto-IsSplit q c (split (now q c) spec).1 e (split-some (now q c) spec) rest)
    ]

segments-of : (segments : List Bytes) → IsSplitOf false segments → All IsSegment segments
segments-of [] is = tt
segments-of (first ∷ rest) is = (record { closed = is.closed; bars = is.bars }, is.others)

-- Where no quote is open at the end, the split gives segments.
pub split-IsSegment :
    (spec : Bytes) → (split false spec).0 ≡ false → All IsSegment (split false spec).1
split-IsSegment spec closed = segments-of (split false spec).1 (split-IsSplit false spec closed)
