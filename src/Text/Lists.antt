-- ===== src/Text/Lists.antt =====
-- Strings in a list: the laws of `equal` and `is_listed`, and lists without repetition.
use pipe_shell_x.Base.{
  ℕ, ◌≡◌, refl, ap, ap₂, ◌∙◌, [], ◌∷◌, ◌++◌, List, Bool, true, false, ◌&&◌, ◌||◌, Bytes, ◌==◌,
  arith, ==_iff, ==_refl, All,
}
use pipe_shell_x.Text.{equal, is_listed}

pub or_false : (a b : Bool) → (a || b) ≡ false → (a ≡ false) × (b ≡ false)
or_false false b e = (refl, e)
or_false true b e = cc

pub and_true : (a b : Bool) → (a && b) ≡ true → (a ≡ true) × (b ≡ true)
and_true true b e = (refl, e)
and_true false b e = cc

pub equal-≡ : (s t : Bytes) → equal s t ≡ true → s ≡ t
unfolding equal
equal-≡ [] [] e = refl
equal-≡ [] (d ∷ t) e = cc
equal-≡ (c ∷ s) [] e = cc
equal-≡ (c ∷ s) (d ∷ t) e =
    let (here, there) = and_true (c == d) (equal s t) e in
    ap₂ (λ x xs. x ∷ xs) ((==_iff c d).0 here) (equal-≡ s t there)

pub equal_refl : (s : Bytes) → equal s s ≡ true
unfolding equal
equal_refl [] = refl
equal_refl (c ∷ s) = rw (==_refl c) (equal_refl s)

==_sym : (c d : ℕ) → (c == d) ≡ (d == c)
==_sym c d = ground arith

pub equal_sym : (s t : Bytes) → equal s t ≡ equal t s
unfolding equal
equal_sym [] [] = refl
equal_sym [] (d ∷ t) = refl
equal_sym (c ∷ s) [] = refl
equal_sym (c ∷ s) (d ∷ t) = ap₂ (λ a b. a && b) (==_sym c d) (equal_sym s t)

pub is_listed-snoc :
    (s t : Bytes) (ts : List Bytes) → is_listed s (ts ++ t ∷ []) ≡ is_listed s ts || equal s t
unfolding is_listed
is_listed-snoc s t [] = or_nil (equal s t)
  where
    or_nil : (b : Bool) → (b || false) ≡ b
    or_nil true = refl
    or_nil false = refl
is_listed-snoc s t (u ∷ ts) =
    ap (λ b. equal s u || b) (is_listed-snoc s t ts)
    ∙ or_assoc (equal s u) (is_listed s ts) (equal s t)
  where
    or_assoc : (a b c : Bool) → (a || (b || c)) ≡ (a || b) || c
    or_assoc true b c = refl
    or_assoc false b c = refl

-- No string is there twice.
abbrev pub IsUnique : List Bytes → Type 0
IsUnique [] = Unit
IsUnique (s ∷ ss) = (is_listed s ss ≡ false) × IsUnique ss

pub IsUnique-snoc :
    (ss : List Bytes) (t : Bytes) → IsUnique ss → is_listed t ss ≡ false → IsUnique (ss ++ t ∷ [])
unfolding is_listed
IsUnique-snoc [] t unique new = (refl, tt)
IsUnique-snoc (s ∷ ss) t (apart, unique) new =
    let (other, missing) = or_false (equal t s) (is_listed t ss) new in
    (
      is_listed-snoc s t ss ∙ ap₂ (λ a b. a || b) apart (equal_sym s t ∙ other),
      IsUnique-snoc ss t unique missing,
    )

pub All-snoc {ℓ κ} :
    {A : Type ℓ} (P : A → Type κ) (ss : List A) (t : A) → All P ss → P t → All P (ss ++ t ∷ [])
All-snoc P [] t all is = (is, tt)
All-snoc P (s ∷ ss) t (here, all) is = (here, All-snoc P ss t all is)
