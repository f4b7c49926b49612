-- ===== src/Base/Counts.antt =====
-- Multiplicities of the numbers of a list, and lists of counters.
use native.Mathlib.Decide.{dec_lt}
use pipe_shell_x.Base.{
  ℕ, zero, suc, ◌+◌, ◌-◌, ◌≡◌, ◌≢◌, ◌≤◌, ◌<◌, refl, ap, subst, ◌∙◌, [], ◌∷◌, ◌++◌, List, length,
  ◌==◌, if◌then◌else◌, get_or, set, arith,
}

-- 1 where two positions are the same, else 0.
abbrev pub hit : ℕ → ℕ → ℕ
hit x v = if x == v then 1 else 0

abbrev pub count : ℕ → List ℕ → ℕ
count v [] = 0
count v (x ∷ xs) = hit x v + count v xs

-- 1 for 0, else 0.
abbrev pub is_zero : ℕ → ℕ
is_zero d = if d == 0 then 1 else 0

pub hit_same : (v : ℕ) → hit v v ≡ 1
hit_same v = ground arith

pub hit_other : (x v : ℕ) → x ≢ v → hit x v ≡ 0
hit_other x v ne = ground arith

pub hit-le : (x v : ℕ) → hit x v ≤ 1
hit-le x v = ground arith

pub count-append : (v : ℕ) (xs ys : List ℕ) → count v (xs ++ ys) ≡ count v xs + count v ys
count-append v [] ys = omega arith
count-append v (x ∷ xs) ys = omega (arith, count-append v xs ys)

hit-suc : (x v : ℕ) → hit x v ≡ hit (suc x) (suc v)
hit-suc x v = ground arith

-- A counter that is stepped down at `a`, as far as 0, wherever `a` lies.
pub get_or-step :
    (ds : List ℕ) (a v : ℕ) → get_or (set ds a (get_or ds a 0 - 1)) v 0 ≡ get_or ds v 0 - hit a v
get_or-step [] a v = omega arith
get_or-step (d ∷ ds) zero zero = omega (arith, hit_same 0)
get_or-step (d ∷ ds) zero (suc v) = omega (arith, hit_other 0 (suc v) (ground arith))
get_or-step (d ∷ ds) (suc a) zero = omega (arith, hit_other (suc a) 0 (ground arith))
get_or-step (d ∷ ds) (suc a) (suc v) =
    get_or-step ds a v ∙ ap (λ k. get_or ds v 0 - k) (hit-suc a v)

-- The multiplicities of the first `n` positions, added up.
abbrev pub total : ℕ → List ℕ → ℕ
total zero xs = 0
total (suc n) xs = total n xs + count n xs

total-nil : (n : ℕ) → total n [] ≡ 0
total-nil zero = refl
total-nil (suc n) = omega (arith, total-nil n)

total-cons_out : (n x : ℕ) (xs : List ℕ) → n ≤ x → total n (x ∷ xs) ≡ total n xs
total-cons_out zero x xs h = refl
total-cons_out (suc n) x xs h =
    omega (arith, total-cons_out n x xs (omega arith), hit_other x n (omega arith))

total-cons : (n x : ℕ) (xs : List ℕ) → x < n → total n (x ∷ xs) ≡ suc (total n xs)
total-cons zero x xs h = absurd (omega arith)
total-cons (suc n) x xs h = elim (dec_lt x n) [
  | yes below ↦ omega (arith, total-cons n x xs below, hit_other x n (omega arith))
  | no last ↦
      let e : x ≡ n = omega arith in
      omega (arith, total-cons_out n x xs (omega arith), ap (λ k. hit x k) e, hit_same x)
]

-- Positions that are all below `n` are counted in full.
pub total-length :
    (n : ℕ) (xs : List ℕ) → ((v : ℕ) → n ≤ v → count v xs ≡ 0) → total n xs ≡ length xs
total-length n [] out = total-nil n
total-length n (x ∷ xs) out = elim (dec_lt x n) [
  | yes below ↦
      omega (arith, total-cons n x xs below, total-length n xs (λ v h. omega (arith, out v h)))
  | no far ↦ absurd (omega (arith, out x (omega arith), hit_same x))
]

pub total-le : (n : ℕ) (xs : List ℕ) → ((v : ℕ) → v < n → count v xs ≤ 1) → total n xs ≤ n
total-le zero xs h = omega arith
total-le (suc n) xs h = omega (arith, total-le n xs (λ v l. h v (omega arith)), h n (omega arith))

pub total-all : (n : ℕ) (xs : List ℕ) → ((v : ℕ) → v < n → count v xs ≡ 1) → total n xs ≡ n
total-all zero xs h = refl
total-all (suc n) xs h = omega (arith, total-all n xs (λ v l. h v (omega arith)), h n (omega arith))

-- A full count of positions that are there at most once has each of them.
pub total-tight :
    (n : ℕ) (xs : List ℕ)
    → ((v : ℕ) → v < n → count v xs ≤ 1)
    → total n xs ≡ n
    → (v : ℕ) → v < n
    → count v xs ≡ 1
total-tight zero xs few all v below = absurd (omega arith)
total-tight (suc n) xs few all v below =
    let less = total-le n xs (λ w l. few w (omega arith)) in
    elim (dec_lt v n) [
      | yes here ↦
          total-tight n xs (λ w l. few w (omega arith)) (omega (arith, few n (omega arith))) v here
      | no last ↦
          let e : n ≡ v = omega arith in
          subst (λ k. count k xs ≡ 1) e (omega (arith, few n (omega arith)))
    ]

pub total-le_of : (n : ℕ) (xs : List ℕ) → ((v : ℕ) → v < n → 0 < count v xs) → n ≤ total n xs
total-le_of zero xs h = omega arith
total-le_of (suc n) xs h =
    omega (arith, total-le_of n xs (λ v l. h v (omega arith)), h n (omega arith))
