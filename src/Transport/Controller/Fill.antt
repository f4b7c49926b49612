-- ===== src/Transport/Controller/Fill.antt =====
-- The ends of connections with the controller's own cancellation, and the starts of connections.
use pipe_shell_x.Base.{
  ℕ, zero, suc, ◌+◌, ◌≡◌, ◌≤◌, ◌<◌, refl, sym, ap, subst, ◌∙◌, inl, inr, Option, none, some, true,
  false, not, ◌&&◌, Bytes, codes, length, ltb, ◌==◌, if◌then◌else◌, get_or, set, arith, Bool-cases,
  length-set,
}
use pipe_shell_x.Text.Lists.{and_true}
use pipe_shell_x.Base.Counts.{count}
use pipe_shell_x.Transport.Controller.{
  Controller, Conn, HostResult, fail_fast_kind, other, no_conn, conn_at, limit, complete_if_ready,
  schedule, finish_by, is_bad, failed_result, fail_by, stop_all, fail, launch, connected, may_start,
  fill_loop,
}
use pipe_shell_x.Transport.Controller.Tally.{
  weight, tally-set, tally-le, open_weight, busy_weight, idle_weight,
}
use pipe_shell_x.Transport.Controller.Inv.{Inv, nothing_owed, written}
use pipe_shell_x.Transport.Controller.Ends.{
  Quiet, marked, stopped_by, finish_by-eq, finish_by-Inv, finish_by-Frame, complete_if_ready-conns,
  schedule-conns,
}
use pipe_shell_x.Transport.Controller.Cancel.{
  Swept, complete_if_ready-cancelling, schedule-cancelling, cancel-Quiet, cancel-Swept,
}

pub stop_all-Quiet : Quiet stop_all
stop_all-Quiet = cancel-Quiet (codes "fail-fast") fail_fast_kind

-- The invariant, with every connection done after a cancellation.
pub record Core (st : Controller) : Type 0 where
  pub inv : Inv nothing_owed st
  pub swept : Swept st

pub complete_if_ready-Swept : (st : Controller) → Swept st → Swept (complete_if_ready st)
complete_if_ready-Swept st swept e j =
    ap (λ cs. (get_or cs j no_conn).done) (complete_if_ready-conns st)
    ∙ swept (sym (complete_if_ready-cancelling st) ∙ e) j

schedule-Swept : (i : ℕ) (st : Controller) → Swept st → Swept (schedule i st)
schedule-Swept i st swept e j =
    ap (λ cs. (get_or cs j no_conn).done) (schedule-conns i st)
    ∙ swept (sym (schedule-cancelling i st) ∙ e) j

stopped-Swept : (i : ℕ) (st : Controller) → Swept st → Swept (stopped_by stop_all i st)
unfolding stopped_by
stopped-Swept i st swept =
    elim (Bool-cases (st.fail_fast && (not st.cancelling && is_bad (conn_at i st).result))) [
      | inl stop ↦ rw (stop) (cancel-Swept (codes "fail-fast") fail_fast_kind st swept)
      | inr go ↦ rw (go) swept
    ]

-- An open connection shows that nothing was cancelled.
pub open-running :
    (i : ℕ) (st : Controller) → Swept st → (conn_at i st).done ≡ false → st.cancelling ≡ false
open-running i st swept not_done = elim (Bool-cases st.cancelling) [
  | inr running ↦ running
  | inl stopped ↦ absurd (let never : true ≡ false = sym (swept stopped i) ∙ not_done in cc)
]

pub finish-Core :
    (i : ℕ) (r : HostResult) (st : Controller)
    → Core st
    → ((conn_at i st).done ≡ false → i < st.next_to_start)
    → Core (finish_by stop_all i r st)
unfolding finish_by
finish-Core i r st core taken = record {
  inv =
      finish_by-Inv stop_all stop_all-Quiet nothing_owed i r st (λ _ not_done. taken not_done)
        core.inv;
  swept = elim (Bool-cases (conn_at i st).done) [
    | inl over ↦ rw (over) core.swept
    | inr not_done ↦
        let running = open-running i st core.swept not_done in
        let left : Swept (marked i r st) =
          λ e j. absurd (let never : true ≡ false = sym e ∙ running in cc) in
        subst Swept (sym (finish_by-eq stop_all stop_all-Quiet i r st not_done))
          (complete_if_ready-Swept _ (schedule-Swept i _ (stopped-Swept i (marked i r st) left)))
  ];
}

module _ (st : Controller) (core : Core st) (may : may_start st ≡ true) where
  abbrev i : ℕ
  i = st.next_to_start

  in_range : i < length st.conns
  unfolding may_start
  in_range =
      let (first, _) =
        and_true (ltb i (length st.conns)) (ltb st.active (limit st) && not st.cancelling) may in
      ground (arith, first)

  below_limit : st.active < limit st
  unfolding may_start
  below_limit =
      let (_, rest) =
        and_true (ltb i (length st.conns)) (ltb st.active (limit st) && not st.cancelling) may in
      let (free, _) = and_true (ltb st.active (limit st)) (not st.cancelling) rest in
      ground (arith, free)

  running : st.cancelling ≡ false
  unfolding may_start
  running =
      let (_, rest) =
        and_true (ltb i (length st.conns)) (ltb st.active (limit st) && not st.cancelling) may in
      let (_, go) = and_true (ltb st.active (limit st)) (not st.cancelling) rest in
      elim (Bool-cases st.cancelling) [
        | inr is ↦ is
        | inl no_go ↦ absurd (let never : false ≡ true = sym (ap not no_go) ∙ go in cc)
      ]

  fresh : (conn_at i st).done ≡ false
  fresh = core.inv.untouched running i (omega arith) in_range

  asleep : (conn_at i st).active ≡ false
  asleep = core.inv.unstarted i (omega arith)

  abbrev woken : Conn
  woken = record (conn_at i st) { active = true }

  abbrev launched : Controller
  launched = record st {
    next_to_start = suc i;
    conns = set st.conns i woken;
    active = suc st.active;
  }

  same_size : length (set st.conns i woken) ≡ length st.conns
  same_size = length-set st.conns i woken

  some_open : 0 < st.remaining
  some_open =
      let there : weight (not (conn_at i st).done) ≡ 1 = ap (λ b. weight (not b)) fresh in
      omega (arith, core.inv.open_count, tally-le open_weight st.conns i in_range, there)

  launched-Inv : Inv nothing_owed launched
  launched-Inv = record {
    open_count =
        omega (arith, core.inv.open_count, tally-set open_weight st.conns i woken in_range);
    busy_count = omega (
      arith,
      core.inv.busy_count,
      tally-set busy_weight st.conns i woken in_range,
      ap weight asleep,
    );
    scheduled = λ j. elim (written st i j woken in_range) [
      | inl (e, at) ↦
          let was : idle_weight (conn_at i st) ≡ 0 =
            ap (λ b. weight (b && (conn_at i st).done)) asleep in
          let is : idle_weight woken ≡ 0 = ap weight fresh in
          let here : count j st.timers + 0 ≡ 0 =
            subst (λ k. count k st.timers + 0 ≡ 0) e (core.inv.scheduled i ∙ was) in
          here ∙ sym (ap idle_weight at ∙ is)
      | inr (ne, at) ↦ core.inv.scheduled j ∙ sym (ap idle_weight at)
    ];
    bounded = omega (arith, in_range, same_size);
    unstarted = λ j late. elim (written st i j woken in_range) [
      | inl (e, at) ↦ absurd (omega (arith, late, e))
      | inr (ne, at) ↦ ap (λ c. c.active) at ∙ core.inv.unstarted j (omega (arith, late))
    ];
    untouched = λ go j late below. elim (written st i j woken in_range) [
      | inl (e, at) ↦ absurd (omega (arith, late, e))
      | inr (ne, at) ↦
          ap (λ c. c.done) at
          ∙ core.inv.untouched go j (omega (arith, late)) (omega (arith, below, same_size))
    ];
    started = λ j early still. elim (written st i j woken in_range) [
      | inl (e, at) ↦ ap (λ c. c.active) at
      | inr (ne, at) ↦
          ap (λ c. c.active) at
          ∙ core.inv.started j (ground (arith, early, ne)) (sym (ap (λ c. c.done) at) ∙ still)
    ];
    within =
        subst (λ n. suc st.active ≤ (if st.concurrency == 0 then n else st.concurrency))
          (sym same_size) below_limit;
    silent = core.inv.silent;
    once = λ over.
        let (_, (no_left, _)) = core.inv.once over in absurd (omega (arith, some_open, no_left));
  }

  launched-Core : Core launched
  launched-Core = record {
    inv = launched-Inv;
    swept = λ e j. absurd (let never : true ≡ false = sym e ∙ running in cc);
  }

  connected-Core : (refusal : Option Bytes) → Core (connected refusal i launched)
  unfolding connected fail fail_by
  connected-Core none = launched-Core
  connected-Core (some message) =
      finish-Core i (failed_result message other (conn_at i launched).result) launched launched-Core
        (λ _. omega arith)

  connected-next :
      (refusal : Option Bytes)
      → let s = connected refusal i launched in
        (s.next_to_start ≡ suc i) × (length s.conns ≡ length st.conns) × (s.filling ≡ st.filling)
  unfolding connected fail fail_by
  connected-next none = (refl, same_size, refl)
  connected-next (some message) =
      let frame =
        finish_by-Frame stop_all stop_all-Quiet i
          (failed_result message other (conn_at i launched).result) launched in
      (frame.next_same, frame.size_same ∙ same_size, frame.filling_same)

all_started : (st : Controller) → length st.conns ≤ st.next_to_start → may_start st ≡ false
unfolding may_start
all_started st past =
    let out : ltb st.next_to_start (length st.conns) ≡ false = ground (arith, past) in
    ap (λ b. b && (ltb st.active (limit st) && not st.cancelling)) out

-- The loop of `fillSlots` stops only where it may start no connection.
pub record Filled (st result : Controller) : Type 0 where
  pub core : Core result
  pub stuck : may_start result ≡ false
  pub still : result.filling ≡ st.filling

pub fill_loop-Filled :
    (fuel : ℕ) (connects : ℕ → Option Bytes) (st : Controller)
    → Core st
    → length st.conns ≤ fuel + st.next_to_start
    → Filled st (fill_loop fuel connects st)
unfolding fill_loop launch
fill_loop-Filled zero connects st core enough = record {
  core = core;
  stuck = all_started st (omega (arith, enough));
  still = refl;
}
fill_loop-Filled (suc fuel) connects st core enough = elim (Bool-cases (may_start st)) [
  | inr stuck ↦ rw (stuck) (record { core = core; stuck = stuck; still = refl })
  | inl may ↦
      let (next, size, filling) = connected-next st core may (connects st.next_to_start) in
      let rest =
        fill_loop-Filled fuel connects _ (connected-Core st core may (connects st.next_to_start))
          (omega (arith, next, size, enough)) in
      rw (may) (record { core = rest.core; stuck = rest.stuck; still = rest.still ∙ filling })
]
