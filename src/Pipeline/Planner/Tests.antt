-- ===== src/Pipeline/Planner/Tests.antt =====
-- Plans at concrete inputs.
use pipe_shell_x.Base.{◌≡◌, refl, [], ◌∷◌, List, Bytes, codes}
use pipe_shell_x.Base.Errors.{ok, err, error_of, invalid_argument}
use pipe_shell_x.Text.{equal}
use pipe_shell_x.Pipeline.Parser.Tests.{a_pipeline}
use pipe_shell_x.Pipeline.Planner.Correct.{IsChecked, IsPlan, plan-IsPlan, plan-finds}
use pipe_shell_x.Pipeline.Planner.{
  plan, index_stages, position_of, link_edges, link_found, link, is_seen, start_graph, sources_from,
  kahn, release, ids_at, invalid,
}

plan-a_pipeline : plan a_pipeline ≡ ok (codes "s0" ∷ codes "s1" ∷ [])
unfolding plan index_stages position_of link_edges link_found link is_seen start_graph sources_from
    kahn release ids_at equal invalid
plan-a_pipeline = refl

plan-cycle :
    plan (record a_pipeline {
      edges =
          record { from = codes "s1"; to = codes "s0" }
          ∷ record { from = codes "s0"; to = codes "s1" }
          ∷ [];
    })
    ≡ err (error_of invalid_argument "pipeline has a cycle")
unfolding plan index_stages position_of link_edges link_found link is_seen start_graph sources_from
    kahn release ids_at equal invalid
plan-cycle = refl

abbrev an_order : List Bytes
an_order = codes "s0" ∷ codes "s1" ∷ []

plan-IsPlan_example : IsChecked a_pipeline × IsPlan a_pipeline an_order
plan-IsPlan_example = plan-IsPlan a_pipeline an_order plan-a_pipeline

plan-finds_example : (found : List Bytes) × (plan a_pipeline ≡ ok found)
plan-finds_example = plan-finds a_pipeline an_order plan-IsPlan_example.0 plan-IsPlan_example.1
