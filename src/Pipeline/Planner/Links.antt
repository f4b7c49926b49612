-- ===== src/Pipeline/Planner/Links.antt =====
-- The graph that the loop over the edges builds.
use pipe_shell_x.Base.{
  ℕ, zero, suc, ◌+◌, ◌≡◌, ◌<◌, refl, sym, ap, subst, ◌∙◌, ◌⊎◌, inl, inr, [], ◌∷◌, ◌++◌, List, some,
  true, false, length, ◌==◌, if◌then◌else◌, get_or, set, replicate, arith, Bool-cases, ==_iff,
  length-set, length-replicate,
}
use pipe_shell_x.Pipeline.{Edge}
use pipe_shell_x.Pipeline.Planner.{Positions, position_of, Graph, start_graph, is_seen, link}
use pipe_shell_x.Base.Counts.{hit, count, hit_same, hit_other, count-append}
use pipe_shell_x.Pipeline.Planner.Release.{waiting}

-- An edge of the list leads from the stage at `u` to the stage at `v`.
abbrev pub EdgeAt : Positions → List Edge → ℕ → ℕ → Type 0
EdgeAt m [] u v = ⊥
EdgeAt m (e ∷ edges) u v =
    ((position_of e.from m ≡ some u) × (position_of e.to m ≡ some v)) ⊎ EdgeAt m edges u v

-- A counter that is stepped up at `a`.
get_or-raise :
    (ds : List ℕ) (a v : ℕ)
    → a < length ds
    → get_or (set ds a (get_or ds a 0 + 1)) v 0 ≡ get_or ds v 0 + hit a v
get_or-raise [] a v h = absurd (omega arith)
get_or-raise (d ∷ ds) zero zero h = omega (arith, hit_same 0)
get_or-raise (d ∷ ds) zero (suc v) h = omega (arith, hit_other 0 (suc v) (ground arith))
get_or-raise (d ∷ ds) (suc a) zero h = omega (arith, hit_other (suc a) 0 (ground arith))
get_or-raise (d ∷ ds) (suc a) (suc v) h =
    get_or-raise ds a v (omega arith) ∙ ap (λ k. get_or ds v 0 + k) (ground arith)

-- The successors of `u` with `to` added to those of `from`.
count-grown :
    (ss : List (List ℕ)) (from to u v : ℕ)
    → from < length ss
    → count v (get_or (set ss from (get_or ss from [] ++ to ∷ [])) u [])
      ≡ count v (get_or ss u []) + (if from == u then hit to v else 0)
count-grown [] from to u v h = absurd (omega arith)
count-grown (s ∷ ss) zero to zero v h = count-append v s (to ∷ []) ∙ omega (arith)
count-grown (s ∷ ss) zero to (suc u) v h = ground arith
count-grown (s ∷ ss) (suc from) to zero v h = ground arith
count-grown (s ∷ ss) (suc from) to (suc u) v h =
    count-grown ss from to u v (omega arith) ∙ ap (λ k. count v (get_or ss u []) + k) (ground arith)

waiting-grown :
    (i : ℕ) (ss : List (List ℕ)) (from to v : ℕ)
    → from < length ss
    → waiting [] i (set ss from (get_or ss from [] ++ to ∷ [])) v ≡ waiting [] i ss v + hit to v
waiting-grown i [] from to v h = absurd (omega arith)
waiting-grown i (s ∷ ss) zero to v h = omega (arith, count-append v s (to ∷ []))
waiting-grown i (s ∷ ss) (suc from) to v h =
    omega (arith, waiting-grown (suc i) ss from to v (omega arith))

waiting-none : (n i v : ℕ) → waiting [] i (replicate n []) v ≡ 0
waiting-none zero i v = refl
waiting-none (suc n) i v = omega (arith, waiting-none n (suc i) v)

get_or-replicate {ℓ} : {A : Type ℓ} (n v : ℕ) (a : A) → get_or (replicate n a) v a ≡ a
get_or-replicate zero v a = refl
get_or-replicate (suc n) zero a = refl
get_or-replicate (suc n) (suc v) a = get_or-replicate n v a

pub record Linked (n : ℕ) (g : Graph) : Type 0 where
  pub rows : length g.successors ≡ n
  pub cells : length g.indegree ≡ n
  pub held : (v : ℕ) → get_or g.indegree v 0 ≡ waiting [] 0 g.successors v
  pub known : (u v : ℕ) → is_seen u v g.seen ≡ true → 0 < count v (get_or g.successors u [])

pub start_graph-Linked : (n : ℕ) → Linked n (start_graph n)
unfolding start_graph is_seen
start_graph-Linked n = record {
  rows = length-replicate n [];
  cells = length-replicate n 0;
  held = λ v. get_or-replicate n v 0 ∙ sym (waiting-none n 0 v);
  known = λ u v never. cc;
}

pub start_graph-empty : (n u v : ℕ) → count v (get_or (start_graph n).successors u []) ≡ 0
unfolding start_graph
start_graph-empty n u v = ap (count v) (get_or-replicate n u [])

is_seen-cons :
    (from to u v : ℕ) (seen : List (ℕ × ℕ))
    → is_seen u v ((from, to) ∷ seen) ≡ true
    → ((from ≡ u) × (to ≡ v)) ⊎ (is_seen u v seen ≡ true)
unfolding is_seen
is_seen-cons from to u v seen e = elim (Bool-cases (from == u)) [
  | inl f ↦ elim (Bool-cases (to == v)) [
    | inl t ↦ inl ((==_iff from u).0 f, (==_iff to v).0 t)
    | inr t ↦ inr (simp (f, t) at e)
  ]
  | inr f ↦ inr (simp (f) at e)
]

link-seen : (from to : ℕ) (g : Graph) → is_seen from to g.seen ≡ true → link from to g ≡ g
unfolding link
link-seen from to g old = rw (old) refl

link-fresh :
    (from to : ℕ) (g : Graph)
    → is_seen from to g.seen ≡ false
    → link from to g ≡ record {
      successors = set g.successors from (get_or g.successors from [] ++ to ∷ []);
      indegree = set g.indegree to (get_or g.indegree to 0 + 1);
      seen = (from, to) ∷ g.seen;
    }
unfolding link
link-fresh from to g new = rw (new) refl

miss : (x v : ℕ) → (x == v) ≡ false → hit x v ≡ 0
miss x v e = rw (e) refl

module _ (n from to : ℕ) (g : Graph) (linked : Linked n g) (from_in : from < n)
    (to_in : to < n) where
  abbrev grown : ℕ → ℕ → ℕ
  grown u v = if from == u then hit to v else 0

  new_row :
      is_seen from to g.seen ≡ false
      → (u v : ℕ)
      → count v (get_or (link from to g).successors u [])
        ≡ count v (get_or g.successors u []) + grown u v
  unfolding link
  new_row new u v = rw (new) (count-grown g.successors from to u v (omega (arith, linked.rows)))

  pair_there :
      is_seen from to g.seen ≡ false → 0 < count to (get_or (link from to g).successors from [])
  pair_there new = ground (arith, new_row new from to)

  known_here :
      is_seen from to g.seen ≡ false
      → (u v : ℕ) → is_seen u v ((from, to) ∷ g.seen) ≡ true
      → 0 < count v (get_or (link from to g).successors u [])
  known_here new u v e = elim (is_seen-cons from to u v g.seen e) [
    | inl (f, t) ↦
        subst (λ k. 0 < count k (get_or (link from to g).successors u [])) t
          (subst (λ k. 0 < count to (get_or (link from to g).successors k [])) f (pair_there new))
    | inr old ↦ omega (arith, new_row new u v, linked.known u v old)
  ]

  pub link-Linked : Linked n (link from to g)
  link-Linked = elim (Bool-cases (is_seen from to g.seen)) [
    | inl old ↦ subst (Linked n) (sym (link-seen from to g old)) linked
    | inr new ↦ subst (Linked n) (sym (link-fresh from to g new)) (record {
      rows = length-set g.successors from _ ∙ linked.rows;
      cells = length-set g.indegree to _ ∙ linked.cells;
      held = λ v.
          get_or-raise g.indegree to v (omega (arith, linked.cells))
          ∙ omega (
            arith,
            linked.held v,
            waiting-grown 0 g.successors from to v (omega (arith, linked.rows)),
          );
      known = λ u v e.
          subst (λ h. 0 < count v (get_or h.successors u [])) (link-fresh from to g new)
            (known_here new u v e);
    })
  ]

  -- The pairs of the graph are those it had and the new one.
  pub link-old :
      (u v : ℕ)
      → 0 < count v (get_or g.successors u [])
      → 0 < count v (get_or (link from to g).successors u [])
  unfolding link
  link-old u v was = elim (Bool-cases (is_seen from to g.seen)) [
    | inl old ↦ rw (old) was
    | inr new ↦ omega (arith, new_row new u v, was)
  ]

  pub link-new : 0 < count to (get_or (link from to g).successors from [])
  unfolding link
  link-new = elim (Bool-cases (is_seen from to g.seen)) [
    | inl old ↦ rw (old) (linked.known from to old)
    | inr new ↦ pair_there new
  ]

  pub link-only :
      (u v : ℕ)
      → 0 < count v (get_or (link from to g).successors u [])
      → (0 < count v (get_or g.successors u [])) ⊎ ((from ≡ u) × (to ≡ v))
  unfolding link
  link-only u v is = elim (Bool-cases (is_seen from to g.seen)) [
    | inl old ↦
        inl (subst (λ h. 0 < count v (get_or h.successors u [])) (link-seen from to g old) is)
    | inr new ↦ elim (Bool-cases (from == u)) [
      | inr f ↦ inl (omega (arith, is, new_row new u v, ap (λ b. if b then hit to v else 0) f))
      | inl f ↦ elim (Bool-cases (to == v)) [
        | inr t ↦
            inl (
              omega
                (arith, is, new_row new u v, ap (λ b. if b then hit to v else 0) f, miss to v t))
        | inl t ↦ inr ((==_iff from u).0 f, (==_iff to v).0 t)
      ]
    ]
  ]
