-- ===== src/Sink/Consensus/Tests.antt =====
-- A consensus of three hosts.
use pipe_shell_x.Base.{◌≡◌, [], ◌∷◌, List, Bool, Bytes, codes, length}
use pipe_shell_x.Sink.Consensus.{consensus, host_count}
use pipe_shell_x.Sink.Consensus.Counts.{size, votes, IsRanked, consensus-IsRanked}

abbrev outputs : List (Bytes × Bytes)
outputs = (codes "c", codes "x") ∷ (codes "a", codes "y") ∷ (codes "b", codes "y") ∷ []

consensus-IsRanked_example :
    ((p : Bytes → Bool) → size p (consensus outputs).buckets ≡ votes p outputs)
    × (IsRanked (consensus outputs).buckets)
    × (host_count (consensus outputs) ≡ length outputs)
consensus-IsRanked_example = consensus-IsRanked outputs
