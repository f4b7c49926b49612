-- ===== src/Pipeline/Planner/Correct.antt =====
-- `Planner::plan`: what it returns is a plan, and a pipeline that has one is planned.
use native.Mathlib.Decide.{dec_lt}
use pipe_shell_x.Base.{
  get_or-far, ℕ, suc, ◌≡◌, ◌≤◌, ◌<◌, refl, sym, ap, subst, ◌∙◌, inl, inr, [], ◌∷◌, List, some, true,
  false, not, Bytes, length, ◌==◌, if◌then◌else◌, get_or, arith, Bool-cases, ==_iff, All,
}
use pipe_shell_x.Base.Errors.{ok, >>=-eq-ok, ok-injective}
use pipe_shell_x.Pipeline.{Edge, Pipeline}
use pipe_shell_x.Pipeline.Planner.{
  Positions, position_of, index_stages, Graph, start_graph, link_edges, sources_from, kahn, ids_at,
  plan, invalid,
}
use pipe_shell_x.Base.Counts.{count}
use pipe_shell_x.Pipeline.Planner.Kahn.{Inv, kahn-IsOrder, kahn-finds}
use pipe_shell_x.Pipeline.Planner.Links.{Linked, EdgeAt, start_graph-Linked, start_graph-empty}
use pipe_shell_x.Pipeline.Planner.Index.{
  entries, entries-bounds, index_stages-entries, Distinct, Runs, index_stages-Distinct,
  Distinct-index_stages, err-not_ok, Unknown-in_none,
}
use pipe_shell_x.Pipeline.Planner.Edges.{
  Joins, link_edges-Linked, EdgeAt-link_edges, link_edges-EdgeAt, link_edges-Joins,
  Joins-link_edges,
}
use pipe_shell_x.Pipeline.Planner.Order.{
  Before, IsOrdered-Before, Before-IsOrdered, sources-above, sources-count,
}

-- The stages of a pipeline by their ids, each once, and every producer before its consumers.
pub record IsPlan (p : Pipeline) (order : List Bytes) : Type 0 where
  pub positions : List ℕ
  pub named : order ≡ ids_at p.stages positions
  pub once : (v : ℕ) → v < length p.stages → count v positions ≡ 1
  pub outside : (v : ℕ) → length p.stages ≤ v → count v positions ≡ 0
  pub before : (u v : ℕ) → EdgeAt (entries 0 p.stages) p.edges u v → Before u v positions

-- What the checks ask of a pipeline.
pub record IsChecked (p : Pipeline) : Type 0 where
  pub some_stage : 0 < length p.stages
  pub runs : All Runs p.stages
  pub distinct : Distinct p.stages
  pub joins : All (Joins (entries 0 p.stages)) p.edges

module _ (p : Pipeline) where
  abbrev n : ℕ
  n = length p.stages

  abbrev index : Positions
  index = entries 0 p.stages

  within : (id : Bytes) (i : ℕ) → position_of id index ≡ some i → i < n
  within id i found = omega (arith, (entries-bounds id 0 p.stages i found).1)

  module _ (g : Graph) (built : link_edges index p.edges (start_graph n) ≡ ok g) where
    linked : Linked n g
    linked = link_edges-Linked n index within p.edges (start_graph n) g built (start_graph-Linked n)

    abbrev ready : List ℕ
    ready = sources_from 0 g.indegree

    start-Inv : Inv n g.successors [] ready g.indegree
    start-Inv = record {
      held = linked.held;
      once = λ v below. omega (arith, sources-count g.indegree v (omega (arith, linked.cells)));
      outside = λ v far. omega (arith, sources-above 0 g.indegree v (omega (arith, linked.cells)));
      width = λ v far. get_or-far g.indegree v 0 (omega (arith, linked.cells));
    }

    edge_of : (u v : ℕ) → 0 < count v (get_or g.successors u []) → EdgeAt index p.edges u v
    edge_of u v there =
        elim (link_edges-EdgeAt n index within p.edges (start_graph n) g built
          (start_graph-Linked n) u v there) [
            | inl never ↦ absurd (omega (arith, start_graph-empty n u v))
            | inr edge ↦ edge
          ]

    row_of : (u v : ℕ) → EdgeAt index p.edges u v → 0 < count v (get_or g.successors u [])
    row_of = EdgeAt-link_edges n index within p.edges (start_graph n) g built (start_graph-Linked n)

    edge_ends : (edges : List Edge) (u v : ℕ) → EdgeAt index edges u v → v < n
    edge_ends [] u v never = absurd never
    edge_ends (e ∷ edges) u v (inl (_, to)) = within e.to v to
    edge_ends (e ∷ edges) u v (inr later) = edge_ends edges u v later

    abbrev order : List ℕ
    order = kahn (suc n) g.successors ready g.indegree

    order-IsPlan : length order ≡ n → IsPlan p (ids_at p.stages order)
    order-IsPlan size =
        let is =
          kahn-IsOrder n g.successors (suc n) ready g.indegree start-Inv (omega arith) size in
        record {
          positions = order;
          named = refl;
          once = is.once;
          outside = is.outside;
          before = λ u v edge.
              IsOrdered-Before g.successors order u v is.ordered (row_of u v edge)
                (omega (arith, is.once v (edge_ends p.edges u v edge)));
        }

    IsPlan-order : (o : List Bytes) → IsPlan p o → length order ≡ n
    IsPlan-order o is =
        kahn-finds n g.successors (suc n) ready g.indegree start-Inv (omega arith) is.positions
          (record {
            ordered =
                Before-IsOrdered g.successors is.positions
                  (λ u v row _. is.before u v (edge_of u v row))
                  (λ v. elim (dec_lt v n) [
                    | yes below ↦ omega (arith, is.once v below)
                    | no far ↦ omega (arith, is.outside v (omega arith))
                  ]);
            once = is.once;
            outside = is.outside;
          })

finish-ok :
    (p : Pipeline) (order : List ℕ) (o : List Bytes)
    → (if not (length order == length p.stages)
        then invalid "pipeline has a cycle"
        else ok (ids_at p.stages order))
      ≡ ok o
    → (length order ≡ length p.stages) × (ids_at p.stages order ≡ o)
unfolding invalid
finish-ok p order o e = elim (Bool-cases (length order == length p.stages)) [
  | inl all ↦ ((==_iff (length order) (length p.stages)).0 all, ok-injective (simp (all) at e))
  | inr cycle ↦ absurd (err-not_ok (simp (cycle) at e))
]

plan-steps :
    (p : Pipeline) (o : List Bytes)
    → plan p ≡ ok o
    → (0 < length p.stages)
      × (index_stages [] p.stages ≡ ok (entries 0 p.stages))
      × ((g : Graph) × (built : link_edges
              (entries 0 p.stages)
              p.edges
              (start_graph (length p.stages))
            ≡ ok g)
          × (length (order p g built) ≡ length p.stages)
          × (ids_at p.stages (order p g built) ≡ o))
unfolding plan invalid
plan-steps p o e = elim (Bool-cases (length p.stages == 0)) [
  | inl empty ↦ absurd (err-not_ok (simp (empty) at e))
  | inr filled ↦
      let (m, indexed, rest) = >>=-eq-ok _ _ (simp (filled) at e) in
      let is : entries 0 p.stages ≡ m = index_stages-entries [] p.stages m indexed in
      let (g, linked, last) = >>=-eq-ok _ _ rest in
      let built : link_edges (entries 0 p.stages) p.edges (start_graph (length p.stages)) ≡ ok g =
        ap (λ k. link_edges k p.edges (start_graph (length p.stages))) is ∙ linked in
      let (size, named) = finish-ok p (order p g built) o last in
      (ground (arith, filled), indexed ∙ ap ok (sym is), (g, built, size, named))
]

-- What `plan` returns is a plan of the pipeline, which has passed the checks.
pub plan-IsPlan : (p : Pipeline) (o : List Bytes) → plan p ≡ ok o → IsChecked p × IsPlan p o
plan-IsPlan p o e =
    let (filled, indexed, (g, built, size, named)) = plan-steps p o e in
    let (run, (apart, _)) = index_stages-Distinct [] p.stages (entries 0 p.stages) indexed in
    (
      record {
        some_stage = filled;
        runs = run;
        distinct = apart;
        joins = link_edges-Joins (entries 0 p.stages) p.edges _ g built;
      },
      subst (IsPlan p) named (order-IsPlan p g built size),
    )

-- A pipeline that passes the checks and has a plan is planned: `plan` does not report a cycle where
-- there is none.
pub plan-finds :
    (p : Pipeline) (o : List Bytes)
    → IsChecked p
    → IsPlan p o
    → (found : List Bytes) × (plan p ≡ ok found)
unfolding plan
plan-finds p o checked is =
    let indexed =
      Distinct-index_stages [] p.stages checked.runs checked.distinct (Unknown-in_none p.stages) in
    let (g, built) =
      Joins-link_edges (entries 0 p.stages) p.edges (start_graph (length p.stages)) checked.joins in
    let size : (length (order p g built) == length p.stages) ≡ true =
      (==_iff (length (order p g built)) (length p.stages)).1 (IsPlan-order p g built o is) in
    let filled : (length p.stages == 0) ≡ false = ground (arith, checked.some_stage) in
    (ids_at p.stages (order p g built), rw (filled) (rw (indexed) (rw (built) (rw (size) refl))))
