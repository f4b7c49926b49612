-- ===== src/Pipeline/Planner/Edges.antt =====
-- The loop over the edges: which edges it takes, and the graph it builds of them.
use pipe_shell_x.Base.{
  ℕ, ◌≡◌, ◌≢◌, ◌<◌, refl, sym, ap, subst, ◌∙◌, ◌⊎◌, inl, inr, [], ◌∷◌, List, Option, none, some,
  false, Bytes, ◌==◌, get_or, arith, Bool-cases, All,
}
use pipe_shell_x.Base.Errors.{ok, >>=-eq-ok, ok-injective}
use pipe_shell_x.Pipeline.{Edge}
use pipe_shell_x.Pipeline.Planner.{
  Positions, position_of, Graph, link, link_found, link_edges, invalid,
}
use pipe_shell_x.Base.Counts.{count}
use pipe_shell_x.Pipeline.Planner.Links.{Linked, EdgeAt, link-Linked, link-old, link-new, link-only}
use pipe_shell_x.Pipeline.Planner.Index.{err-not_ok}

-- The ends of an edge are two stages.
abbrev pub Joins : Positions → Edge → Type 0
Joins m e =
    (i : ℕ) × (j : ℕ) × (position_of e.from m ≡ some i) × (position_of e.to m ≡ some j) × (i ≢ j)

pub link_found-ok :
    (from to : Option ℕ) (g g' : Graph)
    → link_found from to g ≡ ok g'
    → (i : ℕ) × (j : ℕ) × (from ≡ some i) × (to ≡ some j) × (i ≢ j) × (link i j g ≡ g')
unfolding link_found invalid
link_found-ok none to g g' e = cc
link_found-ok (some i) none g g' e = cc
link_found-ok (some i) (some j) g g' e = elim (Bool-cases (i == j)) [
  | inl loop ↦ absurd (err-not_ok (simp (loop) at e))
  | inr other ↦
      (i, j, refl, refl, (λ same. ground (arith, same, other)), ok-injective (simp (other) at e))
]

-- Every position of the index is one of `n`.
module _ (n : ℕ) (m : Positions)
    (within : (id : Bytes) (i : ℕ) → position_of id m ≡ some i → i < n) where
  -- The first step of the loop, and the rest of it.
  Step : Edge → List Edge → Graph → Graph → Type 0
  Step e edges g g' =
      (i : ℕ) × (j : ℕ) × (position_of e.from m ≡ some i)
      × (position_of e.to m ≡ some j)
      × (i ≢ j)
      × (link_edges m edges (link i j g) ≡ ok g')

  link_edges-Step :
      (e : Edge) (edges : List Edge) (g g' : Graph)
      → link_edges m (e ∷ edges) g ≡ ok g'
      → Step e edges g g'
  unfolding link_edges Step
  link_edges-Step e edges g g' done =
      let (h, first, rest) = >>=-eq-ok _ (λ h. link_edges m edges h) done in
      let (i, j, f, t, apart, is) = link_found-ok _ _ g h first in
      (i, j, f, t, apart, subst (λ k. link_edges m edges k ≡ ok g') (sym is) rest)

  pub link_edges-Linked :
      (edges : List Edge) (g g' : Graph) → link_edges m edges g ≡ ok g' → Linked n g → Linked n g'
  unfolding link_edges Step
  link_edges-Linked [] g g' done linked = subst (Linked n) (ok-injective done) linked
  link_edges-Linked (e ∷ edges) g g' done linked =
      let (i, j, f, t, _, rest) = link_edges-Step e edges g g' done in
      link_edges-Linked edges (link i j g) g' rest
        (link-Linked n i j g linked (within e.from i f) (within e.to j t))

  pub link_edges-old :
      (edges : List Edge) (g g' : Graph)
      → link_edges m edges g ≡ ok g'
      → Linked n g
      → (u v : ℕ) → 0 < count v (get_or g.successors u [])
      → 0 < count v (get_or g'.successors u [])
  unfolding link_edges Step
  link_edges-old [] g g' done linked u v was =
      subst (λ h. 0 < count v (get_or h.successors u [])) (ok-injective done) was
  link_edges-old (e ∷ edges) g g' done linked u v was =
      let (i, j, f, t, _, rest) = link_edges-Step e edges g g' done in
      let i_in = within e.from i f in
      let j_in = within e.to j t in
      link_edges-old edges (link i j g) g' rest (link-Linked n i j g linked i_in j_in) u v
        (link-old n i j g linked i_in j_in u v was)

  -- Each edge is in the graph.
  pub EdgeAt-link_edges :
      (edges : List Edge) (g g' : Graph)
      → link_edges m edges g ≡ ok g'
      → Linked n g
      → (u v : ℕ) → EdgeAt m edges u v
      → 0 < count v (get_or g'.successors u [])
  unfolding link_edges Step
  EdgeAt-link_edges [] g g' done linked u v never = absurd never
  EdgeAt-link_edges (e ∷ edges) g g' done linked u v (inl (from_u, to_v)) =
      let (i, j, f, t, _, rest) = link_edges-Step e edges g g' done in
      let i_in = within e.from i f in
      let j_in = within e.to j t in
      let iu : i ≡ u = cc in
      let jv : j ≡ v = cc in
      link_edges-old edges (link i j g) g' rest (link-Linked n i j g linked i_in j_in) u v (
        subst (λ a. 0 < count v (get_or (link i j g).successors a [])) iu
          (subst (λ b. 0 < count b (get_or (link i j g).successors i [])) jv
            (link-new n i j g linked i_in j_in)))
  EdgeAt-link_edges (e ∷ edges) g g' done linked u v (inr later) =
      let (i, j, f, t, _, rest) = link_edges-Step e edges g g' done in
      EdgeAt-link_edges edges (link i j g) g' rest
        (link-Linked n i j g linked (within e.from i f) (within e.to j t)) u v later

  -- The graph has the edges and what was in it.
  pub link_edges-EdgeAt :
      (edges : List Edge) (g g' : Graph)
      → link_edges m edges g ≡ ok g'
      → Linked n g
      → (u v : ℕ) → 0 < count v (get_or g'.successors u [])
      → (0 < count v (get_or g.successors u [])) ⊎ EdgeAt m edges u v
  unfolding link_edges Step
  link_edges-EdgeAt [] g g' done linked u v is =
      inl (subst (λ h. 0 < count v (get_or h.successors u [])) (sym (ok-injective done)) is)
  link_edges-EdgeAt (e ∷ edges) g g' done linked u v is =
      let (i, j, f, t, _, rest) = link_edges-Step e edges g g' done in
      let i_in = within e.from i f in
      let j_in = within e.to j t in
      elim (link_edges-EdgeAt edges (link i j g) g' rest (link-Linked n i j g linked i_in j_in) u v
        is) [
          | inr later ↦ inr (inr later)
          | inl there ↦ elim (link-only n i j g linked i_in j_in u v there) [
            | inl was ↦ inl was
            | inr (iu, jv) ↦ inr (inl ((f ∙ ap some iu), (t ∙ ap some jv)))
          ]
        ]

pub link_edges-Joins :
    (m : Positions) (edges : List Edge) (g g' : Graph)
    → link_edges m edges g ≡ ok g'
    → All (Joins m) edges
unfolding link_edges
link_edges-Joins m [] g g' done = tt
link_edges-Joins m (e ∷ edges) g g' done =
    let (h, first, rest) = >>=-eq-ok _ (λ h. link_edges m edges h) done in
    let (i, j, f, t, apart, is) = link_found-ok _ _ g h first in
    ((i, j, f, t, apart), link_edges-Joins m edges h g' rest)

pub Joins-link_edges :
    (m : Positions) (edges : List Edge) (g : Graph)
    → All (Joins m) edges
    → (g' : Graph) × (link_edges m edges g ≡ ok g')
unfolding link_edges link_found
Joins-link_edges m [] g joins = (g, refl)
Joins-link_edges m (e ∷ edges) g ((i, j, f, t, apart), joins) =
    let (g', rest) = Joins-link_edges m edges (link i j g) joins in
    let differ : (i == j) ≡ false = ground (arith, apart) in (g', rw (f, t) (rw (differ) rest))
