-- ===== src/Transport/Controller/Tests.antt =====
-- A run on two hosts, one at a time.
use pipe_shell_x.Base.{
  ℕ, zero, suc, ◌+◌, ◌≡◌, ◌≤◌, ◌<◌, ◌⊎◌, refl, [], ◌∷◌, List, Option, none, some, true, false,
  Bytes, codes, length, arith,
}
use pipe_shell_x.Base.Int.{pos}
use pipe_shell_x.Base.Counts.{count}
use pipe_shell_x.Transport.Control.{ExitStatus, exited}
use pipe_shell_x.Transport.Controller.{
  Controller, other, conn_at, limit, complete_if_ready, is_bad, schedule, on_conn_done_by,
  finish_by, failed_result, fail_by, cancel, exit_result, on_exit, fail, connected, launch,
  may_start, fill_loop, fill_slots, leave, retire, new_conns, new_controller, start,
}
use pipe_shell_x.Transport.Controller.Tally.{tally, open_weight, busy_weight}
use pipe_shell_x.Transport.Controller.Cancel.{cancel_done}
use pipe_shell_x.Transport.Controller.Retire.{fired}
use pipe_shell_x.Transport.Controller.Runs.{
  Reached, begins, steps, exits, retires, Reached-limit, Reached-delivered, Reached-waits,
}

abbrev hosts : List Bytes
hosts = codes "a" ∷ codes "b" ∷ []

-- The second host refuses the connection.
abbrev connects : ℕ → Option Bytes
connects zero = none
connects (suc i) = some (codes "refused")

abbrev begun : Controller
begun = start connects 1 false hosts

abbrev success : ExitStatus
success = record { kind = exited; code = pos 0 }

abbrev exited_once : Controller
exited_once = on_exit 0 success begun

abbrev retired_once : Controller
retired_once = retire connects 0 (record exited_once { timers = fired 0 exited_once.timers })

first_active : (conn_at 0 begun).active ≡ true
unfolding start new_controller new_conns fill_slots fill_loop may_start launch connected
first_active = refl

first_due : 0 < count 0 exited_once.timers
unfolding on_exit finish_by on_conn_done_by schedule complete_if_ready exit_result is_bad start
    new_controller new_conns fill_slots fill_loop may_start launch connected
first_due = omega arith

exited_once-Reached : Reached exited_once
exited_once-Reached = steps (begins connects 1 false hosts) (exits 0 success first_active)

retired_once-Reached : Reached retired_once
retired_once-Reached = steps exited_once-Reached (retires connects 0 first_due)

still_running : retired_once.completed ≡ false
unfolding retire leave fired fail fail_by failed_result on_exit finish_by on_conn_done_by schedule
    complete_if_ready exit_result is_bad start new_controller new_conns fill_slots fill_loop
    may_start launch connected
still_running = refl

Reached-limit_example :
    (retired_once.active ≤ limit retired_once)
    × (retired_once.active ≡ tally busy_weight retired_once.conns)
Reached-limit_example = Reached-limit retired_once retired_once-Reached

Reached-delivered_example :
    ((retired_once.completed ≡ false)
      × (retired_once.delivered ≡ [])
      × (0 < tally open_weight retired_once.conns + tally busy_weight retired_once.conns))
    ⊎ ((retired_once.completed ≡ true)
        × (length retired_once.delivered ≡ 1)
        × (tally open_weight retired_once.conns + tally busy_weight retired_once.conns ≡ 0))
Reached-delivered_example = Reached-delivered retired_once retired_once-Reached

Reached-waits_example :
    ((i : ℕ) × (((conn_at i retired_once).active ≡ true) × ((conn_at i retired_once).done ≡ false)))
    ⊎ ((i : ℕ) × (0 < count i retired_once.timers))
Reached-waits_example = Reached-waits retired_once retired_once-Reached still_running

begun_running : begun.completed ≡ false
unfolding start new_controller new_conns fill_slots fill_loop may_start launch connected
begun_running = refl

cancel_done_example : (conn_at 1 (cancel (codes "timed out") other begun)).done ≡ true
cancel_done_example = cancel_done (codes "timed out") other begun begun_running 1
