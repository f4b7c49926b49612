-- ===== src/Transport/Canary/Tests.antt =====
-- Rollouts on two hosts.
use pipe_shell_x.Base.{
  ◌≡◌, ◌<◌, refl, [], ◌∷◌, ◌++◌, List, length, true, false, Bytes, codes, arith,
}
use pipe_shell_x.Base.Int.{pos}
use pipe_shell_x.Transport.Controller.{HostResult}
use pipe_shell_x.Transport.Canary.{
  Target, takes_targets, takes_command, takes, clamped, is_ok, all_ok, on_rest_done,
}
use pipe_shell_x.Transport.Canary.Laws.{
  hosts_of, names_of, canaries, after_canary, others, rollout_done,
}

abbrev targets : List Target
targets = record { host = codes "a"; port = 7000 } ∷ record { host = codes "b"; port = 7000 } ∷ []

-- The second target has no port.
abbrev bad_targets : List Target
bad_targets = record { host = codes "a"; port = 7000 } ∷ record { host = codes "b"; port = 0 } ∷ []

abbrev command : List Bytes
command = codes "ls" ∷ []

abbrev success : Bytes → HostResult
success host = record {
  host = host;
  ok = true;
  exit_code = pos 0;
  error = [];
  timed_out = false;
  cancelled = false;
  aborted = false;
}

abbrev failure : HostResult
failure = record {
  host = codes "a";
  ok = false;
  exit_code = pos 0;
  error = codes "down";
  timed_out = false;
  cancelled = false;
  aborted = false;
}

one_told :
    hosts_of (success (codes "a") ∷ [])
    ≡ names_of (canaries targets 1 command (success (codes "a") ∷ []))
unfolding clamped
one_told = refl

went_well : all_ok (success (codes "a") ∷ []) ≡ true
unfolding all_ok is_ok
went_well = refl

one_more : 0 < length (others targets 1 command (success (codes "a") ∷ []))
unfolding clamped
one_more = omega arith

rest_taken : takes command (others targets 1 command (success (codes "a") ∷ [])) ≡ true
unfolding takes takes_command takes_targets clamped
rest_taken = refl

rest_told :
    hosts_of (success (codes "b") ∷ [])
    ≡ names_of (others targets 1 command (success (codes "a") ∷ []))
unfolding clamped
rest_told = refl

rollout_done_example :
    ((after_canary targets 1 command (success (codes "a") ∷ [])).delivered ≡ [])
    × ((after_canary targets 1 command (success (codes "a") ∷ [])).rest_runs ≡ true)
    × ((on_rest_done
          (success (codes "b") ∷ [])
          (after_canary targets 1 command (success (codes "a") ∷ []))).delivered
        ≡ ((success (codes "a") ∷ []) ++ (success (codes "b") ∷ [])) ∷ [])
    × (hosts_of ((success (codes "a") ∷ []) ++ (success (codes "b") ∷ [])) ≡ names_of targets)
rollout_done_example =
    rollout_done targets 1 command (success (codes "a") ∷ []) (success (codes "b") ∷ [])
      (omega arith) one_told went_well one_more rest_taken rest_told
