-- ===== src/Pipeline/Parser/Tests.antt =====
-- Pipe specs at concrete inputs.
use pipe_shell_x.Base.{[], ◌∷◌, Bytes, codes}
use pipe_shell_x.Pipeline.{Pipeline}

abbrev pub a_pipeline : Pipeline
a_pipeline = record {
  stages =
      record { id = codes "s0"; argv = codes "ls" ∷ []; placement = codes "x" }
      ∷ record { id = codes "s1"; argv = codes "a" ∷ codes "b" ∷ []; placement = codes "y" }
      ∷ [];
  edges = record { from = codes "s0"; to = codes "s1" } ∷ [];
}

abbrev good_spec : Bytes
good_spec = codes "ls@x|'a b' @y"
