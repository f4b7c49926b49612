-- ===== src/Transport/Controller/Cancel.antt =====
-- `cancel` ends every connection.
use native.Mathlib.Decide.{dec_lt}
use pipe_shell_x.Base.{
  ℕ, zero, suc, ◌+◌, ◌≡◌, ◌≤◌, ◌<◌, ◌⊎◌, refl, sym, ap, subst, ◌∙◌, inl, inr, Bool, true, false,
  not, ◌&&◌, ◌||◌, Bytes, length, ◌==◌, if◌then◌else◌, get_or, arith, Bool-cases, ==_iff,
  get_or-far,
}
use pipe_shell_x.Transport.Controller.{
  Controller, HostResult, CancelKind, no_conn, conn_at, complete_if_ready, schedule, finish_by,
  is_bad, failed_result, fail_by, fail_from, kind_of, cancel,
}
use pipe_shell_x.Transport.Controller.Inv.{Inv, written, complete_if_ready-Inv, open-lt}
use pipe_shell_x.Transport.Controller.Ends.{
  Quiet, marked, stopped_by, finish_by-eq, finish_by-Inv, finish_by-active, finish_by-Frame, Frame,
  Frame-refl, Frame-trans, complete_if_ready-Frame, complete_if_ready-conns, schedule-conns,
}

-- After a cancellation every connection is done.
abbrev pub Swept : Controller → Type 0
Swept st = st.cancelling ≡ true → (j : ℕ) → (conn_at j st).done ≡ true

keep_going : Controller → Controller
keep_going st = st

keep_going-Quiet : Quiet keep_going
unfolding keep_going
keep_going-Quiet = record {
  keeps = λ owed st inv. inv;
  still_active = λ st j. refl;
  framed = λ st. Frame-refl st;
}

pub complete_if_ready-cancelling :
    (st : Controller) → (complete_if_ready st).cancelling ≡ st.cancelling
unfolding complete_if_ready
complete_if_ready-cancelling st =
    elim (Bool-cases (not (st.remaining == 0) || (not (st.active == 0) || st.completed))) [
      | inl wait ↦ rw (wait) refl
      | inr go ↦ rw (go) refl
    ]

pub schedule-cancelling : (i : ℕ) (st : Controller) → (schedule i st).cancelling ≡ st.cancelling
unfolding schedule
schedule-cancelling i st = elim (Bool-cases (conn_at i st).active) [
  | inl busy ↦ rw (busy) refl
  | inr gone ↦ rw (gone) refl
]

-- A step of the loop of `cancel`.
module _ (i : ℕ) (r : HostResult) (st : Controller) where
  kept_going : stopped_by keep_going i (marked i r st) ≡ marked i r st
  unfolding stopped_by keep_going
  kept_going =
      same_twice (st.fail_fast && (not st.cancelling && is_bad (conn_at i (marked i r st)).result))
        (marked i r st)
    where
      same_twice : (b : Bool) (s : Controller) → (if b then s else s) ≡ s
      same_twice true s = refl
      same_twice false s = refl

  step-eq :
      (conn_at i st).done ≡ false
      → finish_by keep_going i r st ≡ complete_if_ready (schedule i (marked i r st))
  step-eq not_done =
      finish_by-eq keep_going keep_going-Quiet i r st not_done
      ∙ ap (λ s. complete_if_ready (schedule i s)) kept_going

  step-cancelling : (finish_by keep_going i r st).cancelling ≡ st.cancelling
  unfolding finish_by
  step-cancelling = elim (Bool-cases (conn_at i st).done) [
    | inl over ↦ rw (over) refl
    | inr not_done ↦
        ap (λ s. s.cancelling) (step-eq not_done)
        ∙ complete_if_ready-cancelling (schedule i (marked i r st))
        ∙ schedule-cancelling i (marked i r st)
  ]

  step_done :
      (j : ℕ)
      → ((conn_at j st).done ≡ true) ⊎ (i ≡ j)
      → (conn_at j (finish_by keep_going i r st)).done ≡ true
  unfolding finish_by
  step_done j was = elim (Bool-cases (conn_at i st).done) [
    | inl over ↦
        rw (over)
          (elim was [ inl is ↦ is | inr e ↦ subst (λ k. (conn_at k st).done ≡ true) e over ])
    | inr not_done ↦
        let conns_are : (finish_by keep_going i r st).conns ≡ (marked i r st).conns =
          ap (λ s. s.conns) (step-eq not_done)
          ∙ complete_if_ready-conns (schedule i (marked i r st))
          ∙ schedule-conns i (marked i r st) in
        ap (λ cs. (get_or cs j no_conn).done) conns_are
        ∙ elim (written st i j (record (conn_at i st) { result = r; done = true })
            (open-lt i st not_done)) [
              | inl (e, at) ↦ ap (λ c. c.done) at
              | inr (ne, at) ↦
                  ap (λ c. c.done) at ∙ elim was [ inl is ↦ is | inr e ↦ absurd (ne e) ]
            ]
  ]

-- The loop.
module _ (reason : Bytes) (kind : CancelKind) where
  abbrev one : ℕ → Controller → Controller
  one i st = fail_by (λ s. s) i reason kind st

  loop-Inv :
      (more i : ℕ) (owed : ℕ → ℕ) (st : Controller)
      → st.cancelling ≡ true
      → Inv owed st
      → Inv owed (fail_from more i reason kind st)
  unfolding fail_from fail_by keep_going
  loop-Inv zero i owed st stopping inv = inv
  loop-Inv (suc more) i owed st stopping inv =
      let r = failed_result reason kind (conn_at i st).result in
      loop-Inv more (suc i) owed (one i st) (step-cancelling i r st ∙ stopping) (
        finish_by-Inv keep_going keep_going-Quiet owed i r st
          (λ running _. absurd (let never : true ≡ false = sym stopping ∙ running in cc)) inv)

  loop-cancelling :
      (more i : ℕ) (st : Controller) → (fail_from more i reason kind st).cancelling ≡ st.cancelling
  unfolding fail_from fail_by keep_going
  loop-cancelling zero i st = refl
  loop-cancelling (suc more) i st =
      loop-cancelling more (suc i) (one i st)
      ∙ step-cancelling i (failed_result reason kind (conn_at i st).result) st

  loop-active :
      (more i : ℕ) (st : Controller) (j : ℕ)
      → (conn_at j (fail_from more i reason kind st)).active ≡ (conn_at j st).active
  unfolding fail_from fail_by keep_going
  loop-active zero i st j = refl
  loop-active (suc more) i st j =
      loop-active more (suc i) (one i st) j
      ∙ finish_by-active keep_going keep_going-Quiet i
          (failed_result reason kind (conn_at i st).result) st j

  loop-Frame : (more i : ℕ) (st : Controller) → Frame (fail_from more i reason kind st) st
  unfolding fail_from fail_by keep_going
  loop-Frame zero i st = Frame-refl st
  loop-Frame (suc more) i st = Frame-trans _ (one i st) st (loop-Frame more (suc i) (one i st)) (
      finish_by-Frame keep_going keep_going-Quiet i
        (failed_result reason kind (conn_at i st).result) st)

  loop_done :
      (more i : ℕ) (st : Controller) (j : ℕ)
      → ((conn_at j st).done ≡ true) ⊎ ((i ≤ j) × (j < i + more))
      → (conn_at j (fail_from more i reason kind st)).done ≡ true
  unfolding fail_from fail_by keep_going
  loop_done zero i st j was = elim was [
    | inl is ↦ is
    | inr (low, high) ↦ absurd (omega (arith, low, high))
  ]
  loop_done (suc more) i st j was =
      let r = failed_result reason kind (conn_at i st).result in
      loop_done more (suc i) (one i st) j (elim was [
        | inl is ↦ inl (step_done i r st j (inl is))
        | inr (low, high) ↦ elim (Bool-cases (i == j)) [
          | inl same ↦ inl (step_done i r st j (inr ((==_iff i j).0 same)))
          | inr other ↦ inr (ground (arith, low, other), omega (arith, high))
        ]
      ])

module _ (reason : Bytes) (kind : CancelKind) where
  abbrev pub stopping : Controller → Controller
  stopping st = record st { cancelling = true }

  abbrev pub loop : Controller → Controller
  loop st = fail_from (length st.conns) 0 reason (kind_of reason kind) (stopping st)

  stopping-Inv : (owed : ℕ → ℕ) (st : Controller) → Inv owed st → Inv owed (stopping st)
  stopping-Inv owed st inv = record {
    open_count = inv.open_count;
    busy_count = inv.busy_count;
    scheduled = inv.scheduled;
    bounded = inv.bounded;
    unstarted = inv.unstarted;
    untouched = λ never. cc;
    started = inv.started;
    within = inv.within;
    silent = inv.silent;
    once = inv.once;
  }

  pub cancel-eq :
      (st : Controller) → st.completed ≡ false → cancel reason kind st ≡ complete_if_ready (loop st)
  unfolding cancel
  cancel-eq st running = rw (running) refl

  pub cancel-over : (st : Controller) → st.completed ≡ true → cancel reason kind st ≡ st
  unfolding cancel
  cancel-over st over = rw (over) refl

  pub cancel-Quiet : Quiet (cancel reason kind)
  cancel-Quiet = record {
    keeps = λ owed st inv. elim (Bool-cases st.completed) [
      | inl over ↦ subst (Inv owed) (sym (cancel-over st over)) inv
      | inr running ↦ subst (Inv owed) (sym (cancel-eq st running)) (
          complete_if_ready-Inv owed (loop st) (
            loop-Inv reason (kind_of reason kind) (length st.conns) 0 owed (stopping st) refl
              (stopping-Inv owed st inv)))
    ];
    still_active = λ st j. elim (Bool-cases st.completed) [
      | inl over ↦ ap (λ s. (conn_at j s).active) (cancel-over st over)
      | inr running ↦
          ap (λ s. (conn_at j s).active) (cancel-eq st running)
          ∙ ap (λ cs. (get_or cs j no_conn).active) (complete_if_ready-conns (loop st))
          ∙ loop-active reason (kind_of reason kind) (length st.conns) 0 (stopping st) j
    ];
    framed = λ st. elim (Bool-cases st.completed) [
      | inl over ↦ subst (λ s. Frame s st) (sym (cancel-over st over)) (Frame-refl st)
      | inr running ↦
          let flagged : Frame (stopping st) st = record {
            next_same = refl;
            size_same = refl;
            busy_same = refl;
            cap_same = refl;
            filling_same = refl;
          } in
          let looped =
            Frame-trans _ (stopping st) st
              (loop-Frame reason (kind_of reason kind) (length st.conns) 0 (stopping st)) flagged in
          subst (λ s. Frame s st) (sym (cancel-eq st running))
            (Frame-trans _ (loop st) st (complete_if_ready-Frame (loop st)) looped)
    ];
  }

  -- A cancellation that is not too late ends every connection.
  pub cancel_done :
      (st : Controller)
      → st.completed ≡ false
      → (j : ℕ) → (conn_at j (cancel reason kind st)).done ≡ true
  cancel_done st running j =
      ap (λ s. (conn_at j s).done) (cancel-eq st running)
      ∙ ap (λ cs. (get_or cs j no_conn).done) (complete_if_ready-conns (loop st))
      ∙ loop_done reason (kind_of reason kind) (length st.conns) 0 (stopping st) j
          (elim (dec_lt j (length st.conns)) [
            | yes below ↦ inr (omega arith, omega (arith, below))
            | no far ↦ inl (ap (λ c. c.done) (get_or-far st.conns j no_conn (omega (arith, far))))
          ])

  pub cancel-Swept : (st : Controller) → Swept st → Swept (cancel reason kind st)
  cancel-Swept st swept = elim (Bool-cases st.completed) [
    | inl over ↦ subst Swept (sym (cancel-over st over)) swept
    | inr running ↦ λ _ j. cancel_done st running j
  ]

  pub cancel-cancelling :
      (st : Controller) → st.completed ≡ false → (cancel reason kind st).cancelling ≡ true
  cancel-cancelling st running =
      ap (λ s. s.cancelling) (cancel-eq st running)
      ∙ complete_if_ready-cancelling (loop st)
      ∙ loop-cancelling reason (kind_of reason kind) (length st.conns) 0 (stopping st)
