-- ===== src/Transport/Controller/Inv.antt =====
-- What holds of a controller while one of its methods runs, and what the ends of a connection do to it.
use native.Mathlib.Decide.{dec_lt}
use pipe_shell_x.Base.{
  ℕ, ◌+◌, ◌≡◌, ◌≢◌, ◌≤◌, ◌<◌, ◌⊎◌, sym, ap, subst, ◌∙◌, inl, inr, [], true, false, not, ◌||◌,
  length, ◌==◌, if◌then◌else◌, get_or, set, arith, Bool-cases, ==_iff, get_or-far, get_or-set_self,
  get_or-set_ne,
}
use pipe_shell_x.Base.Counts.{count}
use pipe_shell_x.Text.Lists.{or_false}
use pipe_shell_x.Transport.Controller.{
  Controller, Conn, no_conn, conn_at, limit, complete_if_ready, schedule,
}
use pipe_shell_x.Transport.Controller.Tally.{weight, tally, open_weight, busy_weight, idle_weight}

-- `owed` is the connection whose end is not noted yet: its timer is not scheduled, as far as it is
-- active.
pub record Inv (owed : ℕ → ℕ) (st : Controller) : Type 0 where
  pub open_count : st.remaining ≡ tally open_weight st.conns
  pub busy_count : st.active ≡ tally busy_weight st.conns
  pub scheduled : (j : ℕ) → count j st.timers + owed j ≡ idle_weight (conn_at j st)
  pub bounded : st.next_to_start ≤ length st.conns
  pub unstarted : (j : ℕ) → st.next_to_start ≤ j → (conn_at j st).active ≡ false
  pub untouched :
      st.cancelling ≡ false
      → (j : ℕ) → st.next_to_start ≤ j
      → j < length st.conns
      → (conn_at j st).done ≡ false
  pub started :
      (j : ℕ) → j < st.next_to_start → (conn_at j st).done ≡ false → (conn_at j st).active ≡ true
  pub within : st.active ≤ limit st
  pub silent : st.completed ≡ false → st.delivered ≡ []
  pub once :
      st.completed ≡ true → (length st.delivered ≡ 1) × ((st.remaining ≡ 0) × (st.active ≡ 0))

abbrev pub nothing_owed : ℕ → ℕ
nothing_owed j = 0

-- A connection that is written at `i`, seen from `j`.
pub written :
    (st : Controller) (i j : ℕ) (c : Conn)
    → i < length st.conns
    → ((i ≡ j) × (get_or (set st.conns i c) j no_conn ≡ c))
      ⊎ ((i ≢ j) × (get_or (set st.conns i c) j no_conn ≡ conn_at j st))
written st i j c h = elim (Bool-cases (i == j)) [
  | inl same ↦
      let e : i ≡ j = (==_iff i j).0 same in
      inl (
        e,
        subst (λ k. get_or (set st.conns i c) k no_conn ≡ c) e
            (get_or-set_self st.conns i c no_conn h),
      )
  | inr other ↦
      let ne : i ≢ j = λ e. ground (arith, e, other) in
      inr (ne, get_or-set_ne st.conns c no_conn ne)
]

pub complete_if_ready-Inv :
    (owed : ℕ → ℕ) (st : Controller) → Inv owed st → Inv owed (complete_if_ready st)
unfolding complete_if_ready
complete_if_ready-Inv owed st inv =
    elim (Bool-cases (not (st.remaining == 0) || (not (st.active == 0) || st.completed))) [
      | inl wait ↦ rw (wait) inv
      | inr go ↦
          let (all_done, rest) =
            or_false (not (st.remaining == 0)) (not (st.active == 0) || st.completed) go in
          let (none_active, open_still) = or_false (not (st.active == 0)) st.completed rest in
          rw (go) (record {
            open_count = inv.open_count;
            busy_count = inv.busy_count;
            scheduled = inv.scheduled;
            bounded = inv.bounded;
            unstarted = inv.unstarted;
            untouched = inv.untouched;
            started = inv.started;
            within = inv.within;
            silent = λ never. cc;
            once = λ _. (
              omega (arith, ap length (inv.silent open_still)),
              (ground (arith, all_done), ground (arith, none_active)),
            );
          })
    ]

-- `w` for the one connection.
abbrev pub owes : ℕ → ℕ → ℕ → ℕ
owes i w j = if i == j then w else 0

-- The timer of a connection that is owed one is scheduled.
pub schedule-Inv :
    (owed : ℕ → ℕ) (i : ℕ) (st : Controller)
    → Inv (λ j. owed j + owes i (busy_weight (conn_at i st)) j) st
    → Inv owed (schedule i st)
unfolding schedule
schedule-Inv owed i st inv = elim (Bool-cases (conn_at i st).active) [
  | inl busy ↦ rw (busy) (record {
    open_count = inv.open_count;
    busy_count = inv.busy_count;
    scheduled = λ j. ground (arith, inv.scheduled j, ap weight busy);
    bounded = inv.bounded;
    unstarted = inv.unstarted;
    untouched = inv.untouched;
    started = inv.started;
    within = inv.within;
    silent = inv.silent;
    once = inv.once;
  })
  | inr gone ↦ rw (gone) (record {
    open_count = inv.open_count;
    busy_count = inv.busy_count;
    scheduled = λ j. ground (arith, inv.scheduled j, ap weight gone);
    bounded = inv.bounded;
    unstarted = inv.unstarted;
    untouched = inv.untouched;
    started = inv.started;
    within = inv.within;
    silent = inv.silent;
    once = inv.once;
  })
]

-- A connection that is open is in range.
pub open-lt : (i : ℕ) (st : Controller) → (conn_at i st).done ≡ false → i < length st.conns
open-lt i st not_done = elim (dec_lt i (length st.conns)) [
  | yes below ↦ below
  | no far ↦
      let out : conn_at i st ≡ no_conn = get_or-far st.conns i no_conn (omega (arith, far)) in
      let done : (conn_at i st).done ≡ true = ap (λ c. c.done) out in
      absurd (let never : true ≡ false = sym done ∙ not_done in cc)
]
