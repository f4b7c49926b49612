-- ===== src/Transport/Controller/Runs.antt =====
-- The runs of a controller: the events, and what holds of every state that they lead to.
use native.Mathlib.Decide.{dec_lt}
use pipe_shell_x.Base.{
  ℕ, zero, suc, ◌+◌, ◌≡◌, ◌≤◌, ◌<◌, ◌⊎◌, refl, sym, ap, subst, ◌∙◌, inl, inr, [], ◌∷◌, List, Option,
  Bool, true, false, not, ◌&&◌, Bytes, length, ltb, ◌==◌, get_or, arith, Bool-cases,
}
use pipe_shell_x.Base.Counts.{count}
use pipe_shell_x.Transport.Control.{ExitStatus}
use pipe_shell_x.Transport.Controller.{
  Controller, CancelKind, other, conn_at, no_conn, limit, cancel, exit_result, failed_result,
  on_exit, fail, fail_by, may_start, fill_slots, retire, new_conns, new_controller, start,
}
use pipe_shell_x.Transport.Controller.Tally.{
  weight, tally, tally-some, open_weight, busy_weight, idle_weight,
}
use pipe_shell_x.Transport.Controller.Fill.{Core, open-running}
use pipe_shell_x.Transport.Controller.Rest.{
  Rest, finish-Rest, cancel-Rest, fill_slots-Core, fill_slots_stuck, fill_slots_idle,
  fill_slots-IsPending,
}
use pipe_shell_x.Transport.Controller.Retire.{fired, retire-Rest}

-- A connection reports an exit or an error while it is active, the run is cancelled, or a timer fires.
pub data Step (st : Controller) : Controller → Type 0 where
  exits :
      (i : ℕ) (status : ExitStatus) → (conn_at i st).active ≡ true → Step st (on_exit i status st)
  fails : (i : ℕ) (message : Bytes) → (conn_at i st).active ≡ true → Step st (fail i message st)
  cancels : (reason : Bytes) (kind : CancelKind) → Step st (cancel reason kind st)
  retires :
      (connects : ℕ → Option Bytes) (i : ℕ)
      → 0 < count i st.timers
      → Step st (retire connects i (record st { timers = fired i st.timers }))

pub data Reached : Controller → Type 0 where
  begins :
      (connects : ℕ → Option Bytes) (concurrency : ℕ) (fail_fast : Bool) (hosts : List Bytes)
      → Reached (start connects concurrency fail_fast hosts)
  steps : {st st' : Controller} → Reached st → Step st st' → Reached st'

active-lt :
    (i : ℕ) (st : Controller) → Rest st → (conn_at i st).active ≡ true → i < st.next_to_start
active-lt i st rest active = elim (dec_lt i st.next_to_start) [
  | yes below ↦ below
  | no late ↦ absurd (
      let never : true ≡ false = sym active ∙ rest.core.inv.unstarted i (omega (arith, late)) in cc)
]

Step-Rest : (st st' : Controller) → Rest st → Step st st' → Rest st'
unfolding on_exit fail fail_by
Step-Rest st _ rest (exits i status active) =
    finish-Rest i (exit_result status (conn_at i st).result) st rest
      (λ _. active-lt i st rest active)
Step-Rest st _ rest (fails i message active) =
    finish-Rest i (failed_result message other (conn_at i st).result) st rest
      (λ _. active-lt i st rest active)
Step-Rest st _ rest (cancels reason kind) = cancel-Rest reason kind st rest
Step-Rest st _ rest (retires connects i due) = retire-Rest i st rest due connects

length-new_conns : (hosts : List Bytes) → length (new_conns hosts) ≡ length hosts
unfolding new_conns
length-new_conns [] = refl
length-new_conns (host ∷ hosts) = ap suc (length-new_conns hosts)

open-new_conns : (hosts : List Bytes) → length hosts ≡ tally open_weight (new_conns hosts)
unfolding new_conns
open-new_conns [] = refl
open-new_conns (host ∷ hosts) = omega (arith, open-new_conns hosts)

busy-new_conns : (hosts : List Bytes) → 0 ≡ tally busy_weight (new_conns hosts)
unfolding new_conns
busy-new_conns [] = refl
busy-new_conns (host ∷ hosts) = omega (arith, busy-new_conns hosts)

new_conns_asleep :
    (hosts : List Bytes) (j : ℕ) → (get_or (new_conns hosts) j no_conn).active ≡ false
unfolding new_conns
new_conns_asleep [] j = refl
new_conns_asleep (host ∷ hosts) zero = refl
new_conns_asleep (host ∷ hosts) (suc j) = new_conns_asleep hosts j

new_conns_open :
    (hosts : List Bytes) (j : ℕ)
    → j < length (new_conns hosts)
    → (get_or (new_conns hosts) j no_conn).done ≡ false
unfolding new_conns
new_conns_open [] j below = absurd (omega arith)
new_conns_open (host ∷ hosts) zero below = refl
new_conns_open (host ∷ hosts) (suc j) below = new_conns_open hosts j (omega arith)

module _ (concurrency : ℕ) (fail_fast : Bool) (hosts : List Bytes) where
  abbrev fresh : Controller
  fresh = new_controller concurrency fail_fast hosts

  fresh-Core : Core fresh
  unfolding new_controller
  fresh-Core = record {
    inv = record {
      open_count = open-new_conns hosts;
      busy_count = busy-new_conns hosts;
      scheduled = λ j.
          let asleep : idle_weight (get_or (new_conns hosts) j no_conn) ≡ 0 =
            ap (λ b. weight (b && (get_or (new_conns hosts) j no_conn).done))
              (new_conns_asleep hosts j) in
          omega (arith, asleep);
      bounded = omega arith;
      unstarted = λ j _. new_conns_asleep hosts j;
      untouched = λ _ j _ below. new_conns_open hosts j below;
      started = λ j early. absurd (omega (arith, early));
      within = omega arith;
      silent = λ _. refl;
      once = λ never. cc;
    };
    swept = λ never. cc;
  }

  start_some : (connects : ℕ → Option Bytes) → 0 < length hosts → Rest (fill_slots connects fresh)
  unfolding new_controller
  start_some connects some_host = record {
    core = fill_slots-Core connects fresh fresh-Core refl refl refl;
    stuck = fill_slots_stuck connects fresh fresh-Core refl refl refl;
    idle = fill_slots_idle connects fresh fresh-Core refl refl refl;
    pending =
        fill_slots-IsPending connects fresh fresh-Core refl refl refl
          (λ _. omega (arith, some_host));
  }

start-eq :
    (connects : ℕ → Option Bytes) (concurrency : ℕ) (fail_fast : Bool) (hosts : List Bytes)
    → (length hosts == 0) ≡ false
    → start connects concurrency fail_fast hosts
      ≡ fill_slots connects (new_controller concurrency fail_fast hosts)
unfolding start
start-eq connects concurrency fail_fast hosts some_host = rw (some_host) refl

start-Rest :
    (connects : ℕ → Option Bytes) (concurrency : ℕ) (fail_fast : Bool) (hosts : List Bytes)
    → Rest (start connects concurrency fail_fast hosts)
unfolding start new_controller may_start new_conns
start-Rest connects concurrency fail_fast [] = record {
  core = record {
    inv = record {
      open_count = refl;
      busy_count = refl;
      scheduled = λ j. omega arith;
      bounded = omega arith;
      unstarted = λ j _. refl;
      untouched = λ _ j _ below. absurd (omega (arith, below));
      started = λ j early. absurd (omega (arith, early));
      within = omega arith;
      silent = λ never. cc;
      once = λ _. (refl, (refl, refl));
    };
    swept = λ never. cc;
  };
  stuck = refl;
  idle = refl;
  pending = λ never. cc;
}
start-Rest connects concurrency fail_fast (host ∷ hosts) =
    let some_host : (length (host ∷ hosts) == 0) ≡ false = ground arith in
    subst Rest (sym (start-eq connects concurrency fail_fast (host ∷ hosts) some_host))
      (start_some concurrency fail_fast (host ∷ hosts) connects (omega arith))

Reached-Rest : (st : Controller) → Reached st → Rest st
Reached-Rest _ (begins connects concurrency fail_fast hosts) =
    start-Rest connects concurrency fail_fast hosts
Reached-Rest _ (steps {st} {st'} before step) = Step-Rest st st' (Reached-Rest st before) step

-- In every state that is reached, no more connections are active than the limit allows, and `active` is
-- the sum of the connections' `busy_weight`.
pub Reached-limit :
    (st : Controller)
    → Reached st
    → (st.active ≤ limit st) × (st.active ≡ tally busy_weight st.conns)
Reached-limit st reached =
    let rest = Reached-Rest st reached in (rest.core.inv.within, rest.core.inv.busy_count)

-- The results are delivered once, when every connection is done and retired, and not before.
pub Reached-delivered :
    (st : Controller)
    → Reached st
    → ((st.completed ≡ false)
        × (st.delivered ≡ [])
        × (0 < tally open_weight st.conns + tally busy_weight st.conns))
      ⊎ ((st.completed ≡ true)
          × (length st.delivered ≡ 1)
          × (tally open_weight st.conns + tally busy_weight st.conns ≡ 0))
Reached-delivered st reached =
    let rest = Reached-Rest st reached in
    let inv = rest.core.inv in
    elim (Bool-cases st.completed) [
      | inr running ↦ inl (
        running,
        inv.silent running,
        omega (arith, inv.open_count, inv.busy_count, rest.pending running),
      )
      | inl over ↦
          let (told, (none_left, none_busy)) = inv.once over in
          inr (over, told, omega (arith, inv.open_count, inv.busy_count, none_left, none_busy))
    ]

weight_pos : (b : Bool) → 0 < weight b → b ≡ true
weight_pos true h = refl
weight_pos false h = absurd (omega arith)

not-true : (b : Bool) → not b ≡ true → b ≡ false
not-true false e = refl
not-true true e = cc

-- A free controller with a connection to start may start it.
free-may_start :
    (st : Controller)
    → st.next_to_start < length st.conns
    → st.active ≡ 0
    → st.cancelling ≡ false
    → may_start st ≡ true
unfolding may_start
free-may_start st next free running =
    let first : ltb st.next_to_start (length st.conns) ≡ true = ground (arith, next) in
    let room : ltb st.active (limit st) ≡ true = elim (Bool-cases (st.concurrency == 0)) [
      | inl all ↦ rw (all) (ground (arith, next, free))
      | inr capped ↦ rw (capped) (ground (arith, capped, free))
    ] in
    rw (first, room, running) refl

waits_busy :
    (i : ℕ) (st : Controller)
    → Rest st
    → (conn_at i st).active ≡ true
    → ((i : ℕ) × (((conn_at i st).active ≡ true) × ((conn_at i st).done ≡ false)))
      ⊎ ((i : ℕ) × (0 < count i st.timers))
waits_busy i st rest active = elim (Bool-cases (conn_at i st).done) [
  | inr still ↦ inl (i, (active, still))
  | inl over ↦
      let both : idle_weight (conn_at i st) ≡ 1 =
        ap (λ b. weight (b && (conn_at i st).done)) active ∙ ap weight over in
      inr (i, omega (arith, rest.core.inv.scheduled i, both))
]

-- A run never hangs: as long as the results are not delivered, a connection is active and not done, or
-- a timer is due.
pub Reached-waits :
    (st : Controller)
    → Reached st
    → st.completed ≡ false
    → ((i : ℕ) × (((conn_at i st).active ≡ true) × ((conn_at i st).done ≡ false)))
      ⊎ ((i : ℕ) × (0 < count i st.timers))
Reached-waits st reached running =
    let rest = Reached-Rest st reached in
    let inv = rest.core.inv in
    elim (dec_lt 0 st.active) [
      | yes busy ↦
          let (i, below, there) =
            tally-some busy_weight st.conns (omega (arith, inv.busy_count, busy)) in
          waits_busy i st rest (weight_pos (conn_at i st).active there)
      | no free ↦
          let (i, below, there) =
            tally-some open_weight st.conns
              (omega (arith, inv.open_count, rest.pending running, free)) in
          let still : (conn_at i st).done ≡ false =
            not-true (conn_at i st).done (weight_pos (not (conn_at i st).done) there) in
          elim (dec_lt i st.next_to_start) [
            | yes begun ↦ waits_busy i st rest (inv.started i begun still)
            | no waiting ↦
                let may =
                  free-may_start st (omega (arith, below, waiting)) (omega (arith, free))
                    (open-running i st rest.core.swept still) in
                absurd (let never : true ≡ false = sym may ∙ rest.stuck in cc)
          ]
    ]
