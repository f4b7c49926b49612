-- ===== src/Pipeline/Planner.antt =====
-- include/psx/pipeline/planner.hpp and src/pipeline/planner.cpp: validation of a pipeline and Kahn's
-- algorithm. The maps are association lists and the vectors are lists over the positions of the stages.
pub mod Release
pub mod Kahn
pub mod Links
pub mod Index
pub mod Edges
pub mod Order
pub mod Correct
mod Tests
use Prim.Native.String.{String}
use pipe_shell_x.Base.{
  ℕ, zero, suc, ◌+◌, ◌-◌, [], ◌∷◌, ◌++◌, List, Option, none, some, Bool, true, false, not, ◌&&◌,
  ◌||◌, Bytes, length, ◌==◌, if◌then◌else◌, get_or, set, replicate,
}
use pipe_shell_x.Base.Errors.{Result, ok, err, error_of, invalid_argument, ◌>>=◌}
use pipe_shell_x.Text.{equal}
use pipe_shell_x.Pipeline.{Stage, Edge, Pipeline}

pub invalid {ℓ} : {A : Type ℓ} → String → Result A
invalid what = err (error_of invalid_argument what)

abbrev pub Positions : Type 0
Positions = List (Bytes × ℕ)

-- `position.find`
pub position_of : Bytes → Positions → Option ℕ
position_of id [] = none
position_of id ((other, at) ∷ m) = if equal other id then some at else position_of id m

-- The checks of the stages, and the index of their ids.
pub index_stages : Positions → List Stage → Result Positions
index_stages m [] = ok m
index_stages m (stage ∷ stages) =
    let rest = index_stages (m ++ (stage.id, length m) ∷ []) stages in
    if length stage.id == 0
    then invalid "stage has an empty id"
    else if length stage.argv == 0
    then invalid "stage has an empty command"
    else elim (position_of stage.id m) [ some _ ↦ invalid "duplicate stage id" | none ↦ rest ]

-- `successors`, `indegree` and `seen`.
pub record Graph : Type 0 where
  pub successors : List (List ℕ)
  pub indegree : List ℕ
  pub seen : List (ℕ × ℕ)

pub start_graph : ℕ → Graph
start_graph n = record { successors = replicate n []; indegree = replicate n 0; seen = [] }

pub is_seen : ℕ → ℕ → List (ℕ × ℕ) → Bool
is_seen from to [] = false
is_seen from to ((f, t) ∷ seen) = ((f == from) && (t == to)) || is_seen from to seen

-- An edge between two positions; one that is there already is ignored.
pub link : ℕ → ℕ → Graph → Graph
link from to g = if is_seen from to g.seen then g else record {
  successors = set g.successors from (get_or g.successors from [] ++ to ∷ []);
  indegree = set g.indegree to (get_or g.indegree to 0 + 1);
  seen = (from, to) ∷ g.seen;
}

pub link_found : Option ℕ → Option ℕ → Graph → Result Graph
link_found none to g = invalid "edge references an unknown stage"
link_found (some from) none g = invalid "edge references an unknown stage"
link_found (some from) (some to) g =
    if from == to then invalid "edge is a self-loop" else ok (link from to g)

-- The loop over the edges.
pub link_edges : Positions → List Edge → Graph → Result Graph
link_edges m [] g = ok g
link_edges m (edge ∷ edges) g =
    link_found (position_of edge.from m) (position_of edge.to m) g >>= λ g'. link_edges m edges g'

-- The positions from `i` on whose in-degree is 0.
pub sources_from : ℕ → List ℕ → List ℕ
sources_from i [] = []
sources_from i (d ∷ indegree) =
    let rest = sources_from (suc i) indegree in if d == 0 then i ∷ rest else rest

-- The loop over the successors of a stage: the queue and the in-degrees left.
pub release : List ℕ → List ℕ → List ℕ → List ℕ × List ℕ
release [] ready indegree = (ready, indegree)
release (next ∷ nexts) ready indegree =
    let d = get_or indegree next 0 - 1 in
    release nexts (if d == 0 then ready ++ next ∷ [] else ready) (set indegree next d)

-- The loop of Kahn's algorithm: the positions in the order they leave the queue. Each enters it once, so
-- one round more than there are stages is enough.
pub kahn : ℕ → List (List ℕ) → List ℕ → List ℕ → List ℕ
kahn zero successors ready indegree = []
kahn (suc fuel) successors [] indegree = []
kahn (suc fuel) successors (current ∷ ready) indegree =
    let (ready', indegree') = release (get_or successors current []) ready indegree in
    current ∷ kahn fuel successors ready' indegree'

-- The ids at the positions.
pub ids_at : List Stage → List ℕ → List Bytes
ids_at stages [] = []
ids_at stages (i ∷ order) =
    let none_such : Stage = record { id = []; argv = []; placement = [] } in
    (get_or stages i none_such).id ∷ ids_at stages order

-- `Planner::plan`
pub plan : Pipeline → Result (List Bytes)
plan p =
    let n = length p.stages in
    if n == 0
    then invalid "pipeline has no stages"
    else index_stages [] p.stages >>= λ m. link_edges m p.edges (start_graph n) >>= λ g.
        (let order = kahn (suc n) g.successors (sources_from 0 g.indegree) g.indegree in
          if not (length order == n)
          then invalid "pipeline has a cycle"
          else ok (ids_at p.stages order))
