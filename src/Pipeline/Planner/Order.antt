-- ===== src/Pipeline/Planner/Order.antt =====
-- Orders of positions: one before another in a list, against being listed behind the producers.
use pipe_shell_x.Base.{
  ℕ, zero, suc, ◌+◌, ◌≡◌, ◌≤◌, ◌<◌, refl, sym, ap, subst, ◌∙◌, ◌⊎◌, inl, inr, [], ◌∷◌, List, length,
  ◌==◌, if◌then◌else◌, get_or, arith, Bool-cases, ==_iff,
}
use pipe_shell_x.Pipeline.Planner.{sources_from}
use pipe_shell_x.Base.Counts.{hit, count, is_zero, hit_same, hit_other}
use pipe_shell_x.Pipeline.Planner.Kahn.{IsOrdered}

-- `u` is in the list, and `v` is behind it.
abbrev pub Before : ℕ → ℕ → List ℕ → Type 0
Before u v [] = ⊥
Before u v (x ∷ xs) = ((x ≡ u) × (0 < count v xs)) ⊎ Before u v xs

Before-there : (u v : ℕ) (xs : List ℕ) → Before u v xs → 0 < count v xs
Before-there u v [] never = absurd never
Before-there u v (x ∷ xs) (inl (_, there)) = omega arith
Before-there u v (x ∷ xs) (inr later) = omega (arith, Before-there u v xs later)

module _ (ss : List (List ℕ)) where
  abbrev EdgeTo : ℕ → ℕ → Type 0
  EdgeTo u v = 0 < count v (get_or ss u [])

  ordered-Before :
      (done xs : List ℕ) (u v : ℕ)
      → IsOrdered ss done xs
      → EdgeTo u v
      → 0 < count v xs
      → (0 < count u done) ⊎ Before u v xs
  ordered-Before done [] u v ordered edge there = absurd (omega arith)
  ordered-Before done (x ∷ xs) u v (producers, ordered) edge there = elim (Bool-cases (x == v)) [
    | inl same ↦ inl (producers u (subst (EdgeTo u) (sym ((==_iff x v).0 same)) edge))
    | inr other ↦
        let later : 0 < count v xs = ground (arith, there, other) in
        elim (ordered-Before (x ∷ done) xs u v ordered edge later) [
          | inr behind ↦ inr (inr behind)
          | inl known ↦ elim (Bool-cases (x == u)) [
            | inl here ↦ inr (inl ((==_iff x u).0 here, later))
            | inr not_here ↦ inl (ground (arith, known, not_here))
          ]
        ]
  ]

  pub IsOrdered-Before :
      (xs : List ℕ) (u v : ℕ) → IsOrdered ss [] xs → EdgeTo u v → 0 < count v xs → Before u v xs
  IsOrdered-Before xs u v ordered edge there = elim (ordered-Before [] xs u v ordered edge there) [
    | inl never ↦ absurd (omega arith)
    | inr behind ↦ behind
  ]

  rest-IsOrdered :
      (done xs : List ℕ)
      → ((u v : ℕ) → EdgeTo u v → 0 < count v xs → (0 < count u done) ⊎ Before u v xs)
      → ((v : ℕ) → count v xs ≤ 1)
      → IsOrdered ss done xs
  rest-IsOrdered done [] behind few = tt
  rest-IsOrdered done (x ∷ xs) behind few =
      let last : count x xs ≡ 0 = omega (arith, few x, hit_same x) in
      (
        (λ u edge. elim (behind u x edge (omega (arith, hit_same x))) [
          | inl known ↦ known
          | inr (inl (_, again)) ↦ absurd (omega (arith, last))
          | inr (inr later) ↦ absurd (omega (arith, last, Before-there u x xs later))
        ]),
        rest-IsOrdered (x ∷ done) xs
            (λ u v edge there. elim (behind u v edge (omega (arith, there))) [
              | inl known ↦ inl (omega (arith, known))
              | inr (inl (here, _)) ↦ inl (omega (arith, ap (λ k. hit k u) here, hit_same u))
              | inr (inr later) ↦ inr later
            ])
            (λ v. omega (arith, few v)),
      )

  pub Before-IsOrdered :
      (xs : List ℕ)
      → ((u v : ℕ) → EdgeTo u v → 0 < count v xs → Before u v xs)
      → ((v : ℕ) → count v xs ≤ 1)
      → IsOrdered ss [] xs
  Before-IsOrdered xs behind = rest-IsOrdered [] xs (λ u v edge there. inr (behind u v edge there))

sources-cons :
    (i d : ℕ) (ds : List ℕ) (v : ℕ)
    → count v (sources_from i (d ∷ ds))
      ≡ (if d == 0 then hit i v else 0) + count v (sources_from (suc i) ds)
unfolding sources_from
sources-cons i d ds v = elim (Bool-cases (d == 0)) [
  | inl e ↦ rw (e) refl
  | inr e ↦ rw (e) (omega arith)
]

sources-below : (i : ℕ) (ds : List ℕ) (v : ℕ) → v < i → count v (sources_from i ds) ≡ 0
unfolding sources_from
sources-below i [] v below = refl
sources-below i (d ∷ ds) v below =
    sources-cons i d ds v
    ∙ ground
        (arith, hit_other i v (ground (arith, below)), sources-below (suc i) ds v (omega arith))

pub sources-above :
    (i : ℕ) (ds : List ℕ) (v : ℕ) → i + length ds ≤ v → count v (sources_from i ds) ≡ 0
unfolding sources_from
sources-above i [] v above = refl
sources-above i (d ∷ ds) v above =
    sources-cons i d ds v
    ∙ ground
        (arith, hit_other i v (ground (arith, above)), sources-above (suc i) ds v (omega arith))

sources-from :
    (i : ℕ) (ds : List ℕ) (v : ℕ)
    → v < length ds
    → count (i + v) (sources_from i ds) ≡ is_zero (get_or ds v 0)
sources-from i [] v below = absurd (omega arith)
sources-from i (d ∷ ds) zero below =
    let at : i ≡ i + 0 = omega arith in
    subst (λ k. count k (sources_from i (d ∷ ds)) ≡ is_zero d) at
      (sources-cons i d ds i ∙ ground (arith, hit_same i, sources-below (suc i) ds i (omega arith)))
sources-from i (d ∷ ds) (suc v) below =
    let at : suc i + v ≡ i + suc v = omega arith in
    subst (λ k. count k (sources_from i (d ∷ ds)) ≡ is_zero (get_or ds v 0)) at
      (sources-cons i d ds (suc i + v)
        ∙ ground (
          arith,
          hit_other i (suc i + v) (ground arith),
          sources-from (suc i) ds v (omega arith),
        ))

-- The queue starts with the positions that have no producers.
pub sources-count :
    (ds : List ℕ) (v : ℕ) → v < length ds → count v (sources_from 0 ds) ≡ is_zero (get_or ds v 0)
sources-count ds v below =
    let at : 0 + v ≡ v = omega arith in
    subst (λ k. count k (sources_from 0 ds) ≡ is_zero (get_or ds v 0)) at
      (sources-from 0 ds v below)
