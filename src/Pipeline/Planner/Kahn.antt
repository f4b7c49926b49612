-- ===== src/Pipeline/Planner/Kahn.antt =====
-- Kahn's algorithm: what leaves the queue is in order, leaves it once, and is all that can be ordered.
use native.Mathlib.Decide.{dec_lt}
use pipe_shell_x.Base.{
  ℕ, zero, suc, ◌+◌, ◌≡◌, ◌≤◌, ◌<◌, refl, sym, ap, subst, ◌∙◌, ◌⊎◌, inl, inr, [], ◌∷◌, List, length,
  ◌==◌, get_or, arith, Bool-cases, ==_iff,
}
use pipe_shell_x.Pipeline.Planner.{release, kahn}
use pipe_shell_x.Base.Counts.{
  count, is_zero, hit_same, hit_other, total-tight, total-le_of, total-length, total-le,
}
use pipe_shell_x.Pipeline.Planner.Release.{
  release-indegree, release-ready, waiting, waiting-cons, producers_done, producer_missing,
}

-- `v` is in the list behind all its producers, which are in it or in `done`.
abbrev pub IsOrdered : List (List ℕ) → List ℕ → List ℕ → Type 0
IsOrdered ss done [] = Unit
IsOrdered ss done (v ∷ vs) =
    ((u : ℕ) → 0 < count v (get_or ss u []) → 0 < count u done) × IsOrdered ss (v ∷ done) vs

-- Where `v` is at the end: it has left the queue, or one of its producers has not.
abbrev pub IsSettled : List (List ℕ) → List ℕ → List ℕ → ℕ → Type 0
IsSettled ss done order v =
    (count v done + count v order ≡ 1)
    ⊎ ((count v done + count v order ≡ 0)
        × ((u : ℕ) × (0 < count v (get_or ss u [])) × (count u done + count u order ≡ 0)))

module _ (n : ℕ) (ss : List (List ℕ)) where
  -- The state of the loop: `done` has left the queue.
  pub record Inv (done ready ind : List ℕ) : Type 0 where
    pub held : (v : ℕ) → get_or ind v 0 ≡ waiting done 0 ss v
    pub once : (v : ℕ) → v < n → count v done + count v ready ≡ is_zero (get_or ind v 0)
    pub outside : (v : ℕ) → n ≤ v → count v done + count v ready ≡ 0
    pub width : (v : ℕ) → n ≤ v → get_or ind v 0 ≡ 0

  module _ (done ready ind : List ℕ) (c : ℕ) (inv : Inv done (c ∷ ready) ind) where
    queued-lt : c < n
    queued-lt = elim (dec_lt c n) [
      | yes below ↦ below
      | no far ↦ absurd (omega (arith, inv.outside c (omega arith), hit_same c))
    ]

    queued_free : count c done ≡ 0
    queued_free = ground (arith, inv.once c queued-lt, hit_same c)

    queued_due : get_or ind c 0 ≡ 0
    queued_due = ground (arith, inv.once c queued-lt, hit_same c)

    released : (v : ℕ) → waiting done 0 ss v ≡ count v (get_or ss c []) + waiting (c ∷ done) 0 ss v
    released v = waiting-cons done ss v c queued_free

    release-Inv :
        let (ready', ind') = release (get_or ss c []) ready ind in Inv (c ∷ done) ready' ind'
    release-Inv =
        let nexts = get_or ss c [] in
        let fewer = release-indegree nexts ready ind in
        let enough : (v : ℕ) → count v nexts ≤ get_or ind v 0 =
          λ v. omega (arith, inv.held v, released v) in
        let joins = release-ready nexts ready ind enough in
        record {
          held = λ v. omega (arith, fewer v, inv.held v, released v);
          once = λ v below. omega (arith, joins v, inv.once v below);
          outside = λ v far.
              let still : get_or (release nexts ready ind).1 v 0 ≡ get_or ind v 0 =
                omega (arith, fewer v, inv.width v far) in
              omega (arith, joins v, inv.outside v far, ap is_zero still);
          width = λ v far. omega (arith, fewer v, inv.width v far);
        }

  kahn-IsOrdered :
      (fuel : ℕ) (done ready ind : List ℕ)
      → Inv done ready ind
      → IsOrdered ss done (kahn fuel ss ready ind)
  unfolding kahn
  kahn-IsOrdered zero done ready ind inv = tt
  kahn-IsOrdered (suc fuel) done [] ind inv = tt
  kahn-IsOrdered (suc fuel) done (c ∷ ready) ind inv = (
    producers_done done ss c (sym (inv.held c) ∙ queued_due done ready ind c inv),
    kahn-IsOrdered fuel (c ∷ done) _ _ (release-Inv done ready ind c inv),
  )

  -- The fuel is enough: no more than `n` stages leave the queue.
  done-le : (done ready ind : List ℕ) → Inv done ready ind → length done ≤ n
  done-le done ready ind inv = omega (
    arith,
    total-length n done (λ v far. omega (arith, inv.outside v far)),
    total-le n done (λ v below. ground (arith, inv.once v below)),
  )

  shift-IsSettled :
      (c : ℕ) (done order : List ℕ) (v : ℕ)
      → IsSettled ss (c ∷ done) order v
      → IsSettled ss done (c ∷ order) v
  shift-IsSettled c done order v (inl there) = inl (omega arith)
  shift-IsSettled c done order v (inr (missing, (u, edge, free))) =
      inr (omega arith, (u, edge, omega arith))

  kahn-IsSettled :
      (fuel : ℕ) (done ready ind : List ℕ)
      → Inv done ready ind
      → n < fuel + length done
      → (v : ℕ) → v < n
      → IsSettled ss done (kahn fuel ss ready ind) v
  unfolding kahn
  kahn-IsSettled zero done ready ind inv more v below =
      absurd (omega (arith, done-le done ready ind inv))
  kahn-IsSettled (suc fuel) done [] ind inv more v below = elim (dec_lt 0 (get_or ind v 0)) [
    | no due ↦ inl (ground (arith, inv.once v below, due))
    | yes held ↦
        let (u, edge, free) = producer_missing done ss v (omega (arith, inv.held v, held)) in
        inr (ground (arith, inv.once v below, held), (u, edge, omega (arith, free)))
  ]
  kahn-IsSettled (suc fuel) done (c ∷ ready) ind inv more v below =
      shift-IsSettled c done (kahn fuel ss _ _) v (
        kahn-IsSettled fuel (c ∷ done) _ _ (release-Inv done ready ind c inv) (omega (arith, more))
          v below)

  kahn-outside :
      (fuel : ℕ) (done ready ind : List ℕ)
      → Inv done ready ind
      → (v : ℕ) → n ≤ v
      → count v (kahn fuel ss ready ind) ≡ 0
  unfolding kahn
  kahn-outside zero done ready ind inv v far = refl
  kahn-outside (suc fuel) done [] ind inv v far = refl
  kahn-outside (suc fuel) done (c ∷ ready) ind inv v far =
      let below = queued-lt done ready ind c inv in
      omega (
        arith,
        hit_other c v (ground (arith, below, far)),
        kahn-outside fuel (c ∷ done) _ _ (release-Inv done ready ind c inv) v far,
      )

  -- An order of all the stages: each once, and behind its producers.
  pub record IsOrder (order : List ℕ) : Type 0 where
    pub ordered : IsOrdered ss [] order
    pub once : (v : ℕ) → v < n → count v order ≡ 1
    pub outside : (v : ℕ) → n ≤ v → count v order ≡ 0

  settled-le : (order : List ℕ) (v : ℕ) → IsSettled ss [] order v → count v order ≤ 1
  settled-le order v (inl there) = omega arith
  settled-le order v (inr (missing, _)) = omega arith

  module _ (fuel : ℕ) (ready ind : List ℕ) (inv : Inv [] ready ind) (more : n < fuel) where
    abbrev out : List ℕ
    out = kahn fuel ss ready ind

    settled : (v : ℕ) → v < n → IsSettled ss [] out v
    settled = kahn-IsSettled fuel [] ready ind inv (omega arith)

    -- What leaves the queue is an order of the stages, if it is as many.
    pub kahn-IsOrder : length out ≡ n → IsOrder out
    kahn-IsOrder size = record {
      ordered = kahn-IsOrdered fuel [] ready ind inv;
      once =
          total-tight n out (λ v below. settled-le out v (settled v below))
            (total-length n out (kahn-outside fuel [] ready ind inv) ∙ size);
      outside = kahn-outside fuel [] ready ind inv;
    }

    or_before :
        (x : ℕ) (done : List ℕ)
        → 0 < count x out
        → ((u : ℕ) → 0 < count u done → 0 < count u out)
        → (u : ℕ) → 0 < count u (x ∷ done)
        → 0 < count u out
    or_before x done x_out before u there = elim (Bool-cases (x == u)) [
      | inl same ↦ subst (λ k. 0 < count k out) ((==_iff x u).0 same) x_out
      | inr other ↦ before u (ground (arith, there, other))
    ]

    leaves :
        (done order : List ℕ)
        → IsOrdered ss done order
        → ((u : ℕ) → 0 < count u done → 0 < count u out)
        → ((v : ℕ) → 0 < count v order → v < n)
        → (v : ℕ) → 0 < count v order
        → 0 < count v out
    leaves done [] ordered before below v there = absurd (omega arith)
    leaves done (x ∷ order) (producers, ordered) before below v there =
        let x_out : 0 < count x out = elim (settled x (below x (omega (arith, hit_same x)))) [
          | inl is ↦ omega (arith, is)
          | inr (_, (u, edge, free)) ↦ absurd (omega (arith, before u (producers u edge), free))
        ] in
        elim (Bool-cases (x == v)) [
          | inl same ↦ subst (λ k. 0 < count k out) ((==_iff x v).0 same) x_out
          | inr other ↦
              leaves (x ∷ done) order ordered (or_before x done x_out before)
                (λ w h. below w (omega arith)) v (ground (arith, there, other))
        ]

    -- If there is an order of the stages, all of them leave the queue.
    pub kahn-finds : (order : List ℕ) → IsOrder order → length out ≡ n
    kahn-finds order o =
        let all =
          leaves [] order o.ordered (λ u never. absurd (omega arith))
            (λ v there. elim (dec_lt v n) [
              | yes below ↦ below
              | no far ↦ absurd (omega (arith, o.outside v (omega arith)))
            ]) in
        let most = total-le n out (λ v below. settled-le out v (settled v below)) in
        omega (
          arith,
          most,
          total-le_of n out (λ v below. all v (omega (arith, o.once v below))),
          total-length n out (kahn-outside fuel [] ready ind inv),
        )
