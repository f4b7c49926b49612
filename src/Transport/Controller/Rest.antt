-- ===== src/Transport/Controller/Rest.antt =====
-- What holds of a controller between two events.
use pipe_shell_x.Base.{
  ℕ, zero, suc, ◌+◌, ◌≡◌, ◌<◌, refl, sym, ap, subst, ◌∙◌, inl, inr, Option, none, some, Bool, true,
  false, not, ◌&&◌, ◌||◌, Bytes, length, ltb, ◌==◌, arith, Bool-cases,
}
use pipe_shell_x.Transport.Controller.{
  Controller, HostResult, CancelKind, conn_at, limit, complete_if_ready, finish_by, cancel,
  stop_all, may_start, fill_loop, fill_slots, launch, connected, fail, fail_by, failed_result,
  other,
}
use pipe_shell_x.Transport.Controller.Inv.{nothing_owed, complete_if_ready-Inv}
use pipe_shell_x.Transport.Controller.Ends.{
  Frame, finish_by-eq, finish_by-Frame, complete_if_ready-Frame,
}
use pipe_shell_x.Transport.Controller.Cancel.{
  complete_if_ready-cancelling, cancel-Quiet, cancel-Swept, cancel-cancelling, cancel-eq,
  cancel-over, loop,
}
use pipe_shell_x.Transport.Controller.Fill.{
  Core, stop_all-Quiet, complete_if_ready-Swept, open-running, finish-Core, Filled,
  fill_loop-Filled,
}

pub record Rest (st : Controller) : Type 0 where
  pub core : Core st
  pub stuck : may_start st ≡ false
  pub idle : st.filling ≡ false
  pub pending : st.completed ≡ false → 0 < st.remaining + st.active

may_start-Frame :
    (s st : Controller) → Frame s st → s.cancelling ≡ st.cancelling → may_start s ≡ may_start st
unfolding may_start
may_start-Frame s st frame same =
    rw (frame.next_same, frame.size_same, frame.busy_same, frame.cap_same, same) refl

pub cancelling-stuck : (st : Controller) → st.cancelling ≡ true → may_start st ≡ false
unfolding may_start
cancelling-stuck st stopped =
    rw (stopped) (and_nothing (ltb st.next_to_start (length st.conns)) (ltb st.active (limit st)))
  where
    and_nothing : (a b : Bool) → (a && (b && false)) ≡ false
    and_nothing true true = refl
    and_nothing true false = refl
    and_nothing false b = refl

pending_of :
    (r a : ℕ) (c : Bool) → (not (r == 0) || (not (a == 0) || c)) ≡ true → c ≡ false → 0 < r + a
pending_of (suc r) a c wait open_still = omega arith
pending_of zero (suc a) c wait open_still = omega arith
pending_of zero zero c wait open_still =
    absurd (let never : true ≡ false = sym wait ∙ open_still in cc)

complete_if_ready-pending :
    (st : Controller)
    → (complete_if_ready st).completed ≡ false
    → 0 < (complete_if_ready st).remaining + (complete_if_ready st).active
unfolding complete_if_ready
complete_if_ready-pending st =
    elim (Bool-cases (not (st.remaining == 0) || (not (st.active == 0) || st.completed))) [
      | inl wait ↦
          rw (wait) (λ open_still. pending_of st.remaining st.active st.completed wait open_still)
      | inr go ↦ rw (go) (λ never. cc)
    ]

complete_if_ready-Core : (st : Controller) → Core st → Core (complete_if_ready st)
complete_if_ready-Core st core = record {
  inv = complete_if_ready-Inv nothing_owed st core.inv;
  swept = complete_if_ready-Swept st core.swept;
}

-- A controller that has not completed waits for something.
abbrev pub IsPending : Controller → Type 0
IsPending st = st.completed ≡ false → 0 < st.remaining + st.active

connected-IsPending :
    (refusal : Option Bytes) (i : ℕ) (st : Controller)
    → 0 < st.active
    → IsPending (connected refusal i st)
unfolding connected fail fail_by finish_by
connected-IsPending none i st busy = λ _. omega (arith, busy)
connected-IsPending (some message) i st busy = elim (Bool-cases (conn_at i st).done) [
  | inl over ↦ rw (over) (λ _. omega (arith, busy))
  | inr not_done ↦
      subst IsPending
        (sym (
          finish_by-eq stop_all stop_all-Quiet i (failed_result message other (conn_at i st).result)
            st not_done))
        (complete_if_ready-pending _)
]

fill_loop-IsPending :
    (fuel : ℕ) (connects : ℕ → Option Bytes) (st : Controller)
    → IsPending st
    → IsPending (fill_loop fuel connects st)
unfolding fill_loop launch
fill_loop-IsPending zero connects st pending = pending
fill_loop-IsPending (suc fuel) connects st pending = elim (Bool-cases (may_start st)) [
  | inr stuck ↦ rw (stuck) pending
  | inl may ↦ rw (may) (
      fill_loop-IsPending fuel connects _
        (connected-IsPending (connects st.next_to_start) st.next_to_start _ (omega arith)))
]

-- The last step of every handler.
pub complete_if_ready-Rest :
    (st : Controller)
    → Core st
    → may_start st ≡ false
    → st.filling ≡ false
    → Rest (complete_if_ready st)
complete_if_ready-Rest st core stuck idle = record {
  core = complete_if_ready-Core st core;
  stuck =
      may_start-Frame (complete_if_ready st) st (complete_if_ready-Frame st)
        (complete_if_ready-cancelling st)
      ∙ stuck;
  idle = (complete_if_ready-Frame st).filling_same ∙ idle;
  pending = complete_if_ready-pending st;
}

-- The end of a connection.
pub finish-Rest :
    (i : ℕ) (r : HostResult) (st : Controller)
    → Rest st
    → ((conn_at i st).done ≡ false → i < st.next_to_start)
    → Rest (finish_by stop_all i r st)
unfolding finish_by
finish-Rest i r st rest taken = elim (Bool-cases (conn_at i st).done) [
  | inl over ↦ rw (over) rest
  | inr not_done ↦
      let s : Controller = finish_by stop_all i r st in
      let eq = finish_by-eq stop_all stop_all-Quiet i r st not_done in
      let frame : Frame s st = finish_by-Frame stop_all stop_all-Quiet i r st in
      let running = open-running i st rest.core.swept not_done in
      record {
        core = finish-Core i r st rest.core taken;
        stuck = elim (Bool-cases s.cancelling) [
          | inl stopped ↦ cancelling-stuck s stopped
          | inr go ↦ may_start-Frame s st frame (go ∙ sym running) ∙ rest.stuck
        ];
        idle = frame.filling_same ∙ rest.idle;
        pending =
            subst (λ k. k.completed ≡ false → 0 < k.remaining + k.active) (sym eq)
              (complete_if_ready-pending _);
      }
]

pub cancel-Rest :
    (reason : Bytes) (kind : CancelKind) (st : Controller) → Rest st → Rest (cancel reason kind st)
cancel-Rest reason kind st rest = elim (Bool-cases st.completed) [
  | inl over ↦ subst Rest (sym (cancel-over reason kind st over)) rest
  | inr running ↦
      let quiet = cancel-Quiet reason kind in
      record {
        core = record {
          inv = quiet.keeps nothing_owed st rest.core.inv;
          swept = cancel-Swept reason kind st rest.core.swept;
        };
        stuck = cancelling-stuck (cancel reason kind st) (cancel-cancelling reason kind st running);
        idle = (quiet.framed st).filling_same ∙ rest.idle;
        pending =
            subst (λ k. k.completed ≡ false → 0 < k.remaining + k.active)
              (sym (cancel-eq reason kind st running))
              (complete_if_ready-pending (loop reason kind st));
      }
]

refilling-Core : (st : Controller) (b : Bool) → Core st → Core (record st { filling = b })
refilling-Core st b core = record {
  inv = record {
    open_count = core.inv.open_count;
    busy_count = core.inv.busy_count;
    scheduled = core.inv.scheduled;
    bounded = core.inv.bounded;
    unstarted = core.inv.unstarted;
    untouched = core.inv.untouched;
    started = core.inv.started;
    within = core.inv.within;
    silent = core.inv.silent;
    once = core.inv.once;
  };
  swept = core.swept;
}

-- `fillSlots`, where it is not under way.
module _ (connects : ℕ → Option Bytes) (st : Controller) (core : Core st)
    (open_still : st.completed ≡ false) (running : st.cancelling ≡ false)
    (idle : st.filling ≡ false) where
  abbrev filled : Controller
  filled = fill_loop (length st.conns) connects (record st { filling = true })

  fill_slots-eq : fill_slots connects st ≡ record filled { filling = false }
  unfolding fill_slots
  fill_slots-eq =
      let no_bar : (st.completed || (st.cancelling || st.filling)) ≡ false =
        ap (λ b. b || (st.cancelling || st.filling)) open_still
        ∙ ap (λ b. b || st.filling) running
        ∙ idle in
      rw (no_bar) refl

  full : Filled (record st { filling = true }) filled
  full =
      fill_loop-Filled (length st.conns) connects (record st { filling = true })
        (refilling-Core st true core) (omega arith)

  pub fill_slots-Core : Core (fill_slots connects st)
  fill_slots-Core = subst Core (sym fill_slots-eq) (refilling-Core filled false full.core)

  pub fill_slots_stuck : may_start (fill_slots connects st) ≡ false
  unfolding may_start
  fill_slots_stuck = ap may_start fill_slots-eq ∙ full.stuck

  pub fill_slots_idle : (fill_slots connects st).filling ≡ false
  fill_slots_idle = ap (λ s. s.filling) fill_slots-eq

  pub fill_slots-IsPending : IsPending st → IsPending (fill_slots connects st)
  fill_slots-IsPending pending =
      subst IsPending (sym fill_slots-eq)
        (fill_loop-IsPending (length st.conns) connects (record st { filling = true }) pending)
