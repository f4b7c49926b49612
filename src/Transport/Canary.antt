-- ===== src/Transport/Canary.antt =====
-- include/psx/transport/canary_controller.hpp and src/transport/canary_controller.cpp: a staged rollout.
-- The two native controllers are seen from here: the checks of their `start`, and the results that they
-- deliver, which come as calls.
pub mod Laws
mod Tests
use pipe_shell_x.Base.{
  ℕ, zero, suc, [], ◌∷◌, ◌++◌, List, Bool, true, false, not, ◌&&◌, ◌||◌, Bytes, codes, length, take,
  drop, min, max, ◌==◌, if◌then◌else◌, map,
}
use pipe_shell_x.Base.Int.{ℤ, pos, negsuc}
use pipe_shell_x.Transport.Controller.{HostResult, new_result}

pub record Target : Type 0 where
  pub host : Bytes
  pub port : ℕ

-- `delivered` is what `onComplete` is called with, `rest_runs` whether the second controller runs.
pub record Canary : Type 0 where
  pub command : List Bytes
  pub rest_targets : List Target
  pub canary_results : List HostResult
  pub canary_runs : Bool
  pub rest_runs : Bool
  pub done : Bool
  pub delivered : List (List HostResult)

-- Whether `NativeController::start` takes its arguments, the controller being new.
pub takes_targets : List Target → Bool
takes_targets [] = true
takes_targets (t ∷ targets) =
    let rest = takes_targets targets in
    if (length t.host == 0) || (t.port == 0) then false else rest

pub takes_command : List Bytes → Bool
takes_command [] = false
takes_command (word ∷ words) = not (length word == 0)

pub takes : List Bytes → List Target → Bool
takes command targets = takes_command command && takes_targets targets

pub finish : List HostResult → Canary → Canary
finish results st =
    if st.done then st else record st { done = true; delivered = results ∷ st.delivered }

abbrev pub idle_canary : List Bytes → Canary
idle_canary command = record {
  command = command;
  rest_targets = [];
  canary_results = [];
  canary_runs = false;
  rest_runs = false;
  done = false;
  delivered = [];
}

-- `std::clamp` of the number of canaries.
pub clamped : ℕ → ℕ → ℕ
clamped count size = max 1 (min count size)

-- The state behind `start`, and whether it returns no error.
pub start : List Target → ℕ → List Bytes → Canary × Bool
start targets count command =
    let size = length targets in
    let canaries = take (clamped count size) targets in
    if size == 0 then (finish [] (idle_canary command), true) else (
      record (idle_canary command) {
        rest_targets = drop (clamped count size) targets;
        canary_runs = takes command canaries;
      },
      takes command canaries,
    )

pub is_ok : HostResult → Bool
is_ok r =
    r.ok
    && (elim r.exit_code [ pos zero ↦ true | pos (suc _) ↦ false | negsuc _ ↦ false ]
        && (length r.error == 0))

pub all_ok : List HostResult → Bool
all_ok [] = true
all_ok (r ∷ results) = let rest = all_ok results in is_ok r && rest

pub skipped : Target → HostResult
skipped t = record (new_result t.host) { error = codes "skipped: canary failed" }

-- The result of the second `start` is not looked at.
pub start_rest : Canary → Canary
start_rest st = record st { rest_runs = takes st.command st.rest_targets }

pub on_canary_done : List HostResult → Canary → Canary
on_canary_done results st =
    let told = record st { canary_results = results } in
    if st.done
    then st
    else if all_ok results && not (length st.rest_targets == 0)
    then start_rest told
    else finish (results ++ (if all_ok results then [] else map skipped st.rest_targets)) told

pub on_rest_done : List HostResult → Canary → Canary
on_rest_done results st = if st.done then st else finish (st.canary_results ++ results) st
