-- ===== src/Pipeline/Planner/Release.antt =====
-- What the release of a stage's successors does to the queue and to the in-degrees.
use native.Mathlib.Decide.{dec_lt}
use pipe_shell_x.Base.{
  ℕ, zero, suc, ◌+◌, ◌-◌, ◌≡◌, ◌≤◌, ◌<◌, refl, ap, ap₂, subst, ◌∙◌, inl, inr, [], ◌∷◌, ◌++◌, List,
  true, false, ◌==◌, if◌then◌else◌, get_or, set, arith, Bool-cases, ==_iff,
}
use pipe_shell_x.Pipeline.Planner.{release}
use pipe_shell_x.Base.Counts.{hit, count, is_zero, hit_same, hit_other, count-append, get_or-step}

pub release-indegree :
    (nexts ready ind : List ℕ) (v : ℕ)
    → get_or (release nexts ready ind).1 v 0 ≡ get_or ind v 0 - count v nexts
unfolding release
release-indegree [] ready ind v = omega arith
release-indegree (a ∷ nexts) ready ind v =
    release-indegree nexts _ (set ind a (get_or ind a 0 - 1)) v ∙ omega (arith, get_or-step ind a v)

balance :
    (a v x y : ℕ)
    → (a ≡ v → x ≡ y)
    → 0 < x
    → is_zero y + (if x - 1 == 0 then hit a v else 0) ≡ is_zero (y - hit a v)
balance a v x y same pos = elim (Bool-cases (a == v)) [
  | inl e ↦ let xy = same ((==_iff a v).0 e) in ground (arith, e, xy, pos)
  | inr ne ↦ ground (arith, ne)
]

joined :
    (a v d : ℕ) (ready : List ℕ)
    → count v (if d == 0 then ready ++ a ∷ [] else ready)
      ≡ count v ready + (if d == 0 then hit a v else 0)
joined a v d ready = elim (Bool-cases (d == 0)) [
  | inl e ↦ rw e (omega (arith, count-append v ready (a ∷ [])))
  | inr ne ↦ rw ne (omega arith)
]

minus_suc : (c i : ℕ) → i < c → c - i ≡ suc (c - suc i)
minus_suc c i h = omega arith

-- A position joins the queue when its last edge is stepped down.
pub release-ready :
    (nexts ready ind : List ℕ)
    → ((v : ℕ) → count v nexts ≤ get_or ind v 0)
    → (v : ℕ)
    → count v (release nexts ready ind).0 + is_zero (get_or ind v 0)
      ≡ count v ready + is_zero (get_or (release nexts ready ind).1 v 0)
unfolding release
release-ready [] ready ind enough v = refl
release-ready (a ∷ nexts) ready ind enough v =
    let d = get_or ind a 0 - 1 in
    let stepped : (w : ℕ) → get_or (set ind a d) w 0 ≡ get_or ind w 0 - hit a w =
      get_or-step ind a in
    let rest =
      release-ready nexts (if d == 0 then ready ++ a ∷ [] else ready) (set ind a d)
        (λ w. omega (arith, enough w, stepped w)) v in
    omega (
      arith,
      rest,
      joined a v d ready,
      ap is_zero (stepped v),
      balance a v (get_or ind a 0) (get_or ind v 0) (ap (λ k. get_or ind k 0))
          (omega (arith, enough a, hit_same a)),
    )

-- The edges into `v` from the stages that are not in `done`.
abbrev pub waiting : List ℕ → ℕ → List (List ℕ) → ℕ → ℕ
waiting done i [] v = 0
waiting done i (s ∷ ss) v = (if count i done == 0 then count v s else 0) + waiting done (suc i) ss v

waiting-past :
    (done : List ℕ) (c i : ℕ) (ss : List (List ℕ)) (v : ℕ)
    → c < i
    → waiting (c ∷ done) i ss v ≡ waiting done i ss v
waiting-past done c i [] v h = refl
waiting-past done c i (s ∷ ss) v h =
    let e : count i (c ∷ done) ≡ count i done = omega (arith, hit_other c i (omega arith)) in
    ap₂ (λ k w. (if k == 0 then count v s else 0) + w) e
      (waiting-past done c (suc i) ss v (omega arith))

-- A stage that is done no longer holds its successors back.
waiting-done :
    (done : List ℕ) (c i : ℕ) (ss : List (List ℕ)) (v : ℕ)
    → i ≤ c
    → count c done ≡ 0
    → waiting done i ss v ≡ count v (get_or ss (c - i) []) + waiting (c ∷ done) i ss v
waiting-done done c i [] v h free = refl
waiting-done done c i (s ∷ ss) v h free = elim (dec_lt i c) [
  | yes later ↦
      let e : count i (c ∷ done) ≡ count i done = omega (arith, hit_other c i (omega arith)) in
      let further : get_or (s ∷ ss) (c - i) [] ≡ get_or ss (c - suc i) [] =
        ap (λ k. get_or (s ∷ ss) k []) (minus_suc c i later) in
      let rest = waiting-done done c (suc i) ss v (omega arith) free in
      omega (arith, ap (λ k. if k == 0 then count v s else 0) e, rest, ap (count v) further)
  | no now ↦
      let e : c ≡ i = omega arith in
      let at_front : c - i ≡ 0 = omega (arith, e) in
      let front : count v (get_or (s ∷ ss) (c - i) []) ≡ count v s =
        ap (λ k. count v (get_or (s ∷ ss) k [])) at_front in
      let was : (count i done == 0) ≡ true = ground (arith, free, ap (λ k. count k done) e) in
      let is : (count i (c ∷ done) == 0) ≡ false =
        ground (arith, ap (λ k. hit k i) e, hit_same i) in
      let past = waiting-past done c (suc i) ss v (omega (arith, e)) in
      omega (
        arith,
        front,
        past,
        ap (λ b. if b then count v s else 0) was,
        ap (λ b. if b then count v s else 0) is,
      )
]

-- A stage that nothing holds back has all its producers done.
waiting-zero :
    (done : List ℕ) (i : ℕ) (ss : List (List ℕ)) (v u : ℕ)
    → waiting done i ss v ≡ 0
    → 0 < count v (get_or ss u [])
    → 0 < count (i + u) done
waiting-zero done i [] v u none_left edge = absurd (omega arith)
waiting-zero done i (s ∷ ss) v zero none_left edge = elim (Bool-cases (count i done == 0)) [
  | inl free ↦ absurd (omega (arith, ap (λ b. if b then count v s else 0) free))
  | inr taken ↦
      let at : i ≡ i + 0 = omega arith in subst (λ k. 0 < count k done) at (ground (arith, taken))
]
waiting-zero done i (s ∷ ss) v (suc u) none_left edge =
    let at : suc i + u ≡ i + suc u = omega arith in
    subst (λ k. 0 < count k done) at (waiting-zero done (suc i) ss v u (omega arith) edge)

-- A stage that is held back has a producer that is not done.
waiting-some :
    (done : List ℕ) (i : ℕ) (ss : List (List ℕ)) (v : ℕ)
    → 0 < waiting done i ss v
    → (u : ℕ) × (0 < count v (get_or ss u [])) × (count (i + u) done ≡ 0)
waiting-some done i [] v held = absurd (omega arith)
waiting-some done i (s ∷ ss) v held = elim (dec_lt 0 (if count i done == 0 then count v s else 0)) [
  | yes here ↦
      let at : i ≡ i + 0 = omega arith in
      (0, ground (arith, here), subst (λ k. count k done ≡ 0) at (ground (arith, here)))
  | no past ↦
      let (u, edge, free) = waiting-some done (suc i) ss v (omega arith) in
      let at : suc i + u ≡ i + suc u = omega arith in
      (suc u, edge, subst (λ k. count k done ≡ 0) at free)
]

-- The same, of all the stages.
module _ (done : List ℕ) (ss : List (List ℕ)) (v : ℕ) where
  pub waiting-cons :
      (c : ℕ)
      → count c done ≡ 0
      → waiting done 0 ss v ≡ count v (get_or ss c []) + waiting (c ∷ done) 0 ss v
  waiting-cons c free =
      let at : c - 0 ≡ c = omega arith in
      waiting-done done c 0 ss v (omega arith) free
      ∙ ap (λ k. count v (get_or ss k []) + waiting (c ∷ done) 0 ss v) at

  pub producers_done :
      waiting done 0 ss v ≡ 0 → (u : ℕ) → 0 < count v (get_or ss u []) → 0 < count u done
  producers_done none_left u edge =
      let at : 0 + u ≡ u = omega arith in
      subst (λ k. 0 < count k done) at (waiting-zero done 0 ss v u none_left edge)

  pub producer_missing :
      0 < waiting done 0 ss v → (u : ℕ) × (0 < count v (get_or ss u [])) × (count u done ≡ 0)
  producer_missing held =
      let (u, edge, free) = waiting-some done 0 ss v held in
      let at : 0 + u ≡ u = omega arith in (u, edge, subst (λ k. count k done ≡ 0) at free)
