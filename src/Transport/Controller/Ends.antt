-- ===== src/Transport/Controller/Ends.antt =====
-- The end of a connection: what `finish`, `onConnDone` and what they call keep.
use pipe_shell_x.Base.{
  ℕ, ◌+◌, ◌-◌, ◌≡◌, ◌≤◌, ◌<◌, refl, sym, ap, subst, ◌∙◌, inl, inr, Bool, true, false, not, ◌&&◌,
  ◌||◌, length, ◌==◌, if◌then◌else◌, get_or, set, arith, Bool-cases, length-set,
}
use pipe_shell_x.Base.Counts.{count}
use pipe_shell_x.Transport.Controller.{
  Controller, Conn, HostResult, no_conn, conn_at, complete_if_ready, schedule, on_conn_done_by,
  finish_by, is_bad,
}
use pipe_shell_x.Transport.Controller.Tally.{
  weight, tally-set, open_weight, busy_weight, idle_weight,
}
use pipe_shell_x.Transport.Controller.Inv.{
  Inv, written, complete_if_ready-Inv, owes, schedule-Inv, open-lt,
}

weight-and_true : (b : Bool) → weight (b && true) ≡ weight b
weight-and_true true = refl
weight-and_true false = refl

weight-and_false : (b : Bool) → weight (b && false) ≡ 0
weight-and_false true = refl
weight-and_false false = refl

-- The connection is marked as done.
abbrev pub marked : ℕ → HostResult → Controller → Controller
marked i r st = record st {
  conns = set st.conns i (record (conn_at i st) { result = r; done = true });
  remaining = st.remaining - 1;
}

module _ (owed : ℕ → ℕ) (i : ℕ) (r : HostResult) (st : Controller) (inv : Inv owed st)
    (not_done : (conn_at i st).done ≡ false)
    (taken : st.cancelling ≡ false → i < st.next_to_start) where
  abbrev ended : Conn
  ended = record (conn_at i st) { result = r; done = true }

  in_range : i < length st.conns
  in_range = open-lt i st not_done

  same_size : length (set st.conns i ended) ≡ length st.conns
  same_size = length-set st.conns i ended

  marked-Inv : Inv (λ j. owed j + owes i (busy_weight (conn_at i st)) j) (marked i r st)
  marked-Inv = record {
    open_count = omega (
      arith,
      tally-set open_weight st.conns i ended in_range,
      inv.open_count,
      ap (λ b. weight (not b)) not_done,
    );
    busy_count = omega (arith, tally-set busy_weight st.conns i ended in_range, inv.busy_count);
    scheduled = λ j. elim (written st i j ended in_range) [
      | inl (e, at) ↦
          let at_done : idle_weight (get_or (set st.conns i ended) j no_conn)
              ≡ busy_weight (conn_at i st) =
            ap idle_weight at ∙ weight-and_true (conn_at i st).active in
          let unnoted : count i st.timers + owed i ≡ 0 =
            inv.scheduled i
            ∙ ap (λ b. weight ((conn_at i st).active && b)) not_done
            ∙ weight-and_false (conn_at i st).active in
          let here : count j st.timers + owed j ≡ 0 =
            subst (λ k. count k st.timers + owed k ≡ 0) e unnoted in
          ground (arith, at_done, here, e)
      | inr (ne, at) ↦
          let at_other : idle_weight (get_or (set st.conns i ended) j no_conn)
              ≡ idle_weight (conn_at j st) =
            ap idle_weight at in
          ground (arith, at_other, inv.scheduled j, ne)
    ];
    bounded = omega (arith, inv.bounded, same_size);
    unstarted = λ j late. elim (written st i j ended in_range) [
      | inl (e, at) ↦ ap (λ c. c.active) at ∙ inv.unstarted i (omega (arith, late, e))
      | inr (ne, at) ↦ ap (λ c. c.active) at ∙ inv.unstarted j late
    ];
    untouched = λ running j late below. elim (written st i j ended in_range) [
      | inl (e, at) ↦ absurd (omega (arith, taken running, late, e))
      | inr (ne, at) ↦
          ap (λ c. c.done) at ∙ inv.untouched running j late (omega (arith, below, same_size))
    ];
    started = λ j early still. elim (written st i j ended in_range) [
      | inl (e, at) ↦ absurd (let never : true ≡ false = sym (ap (λ c. c.done) at) ∙ still in cc)
      | inr (ne, at) ↦
          ap (λ c. c.active) at ∙ inv.started j early (sym (ap (λ c. c.done) at) ∙ still)
    ];
    within =
        subst (λ n. st.active ≤ (if st.concurrency == 0 then n else st.concurrency)) (sym same_size)
          inv.within;
    silent = inv.silent;
    once = λ over.
        let (told, (no_left, no_busy)) = inv.once over in (told, (omega (arith, no_left), no_busy));
  }

pub marked-active :
    (i : ℕ) (r : HostResult) (st : Controller)
    → (conn_at i st).done ≡ false
    → (j : ℕ) → (conn_at j (marked i r st)).active ≡ (conn_at j st).active
marked-active i r st not_done j =
    elim (written st i j (record (conn_at i st) { result = r; done = true })
      (open-lt i st not_done)) [
        | inl (e, at) ↦ ap (λ c. c.active) at ∙ ap (λ k. (conn_at k st).active) e
        | inr (ne, at) ↦ ap (λ c. c.active) at
      ]

-- What the end of a connection leaves alone.
pub record Frame (s st : Controller) : Type 0 where
  pub next_same : s.next_to_start ≡ st.next_to_start
  pub size_same : length s.conns ≡ length st.conns
  pub busy_same : s.active ≡ st.active
  pub cap_same : s.concurrency ≡ st.concurrency
  pub filling_same : s.filling ≡ st.filling

pub Frame-refl : (st : Controller) → Frame st st
Frame-refl st = record {
  next_same = refl;
  size_same = refl;
  busy_same = refl;
  cap_same = refl;
  filling_same = refl;
}

pub Frame-trans : (a b c : Controller) → Frame a b → Frame b c → Frame a c
Frame-trans a b c f g = record {
  next_same = f.next_same ∙ g.next_same;
  size_same = f.size_same ∙ g.size_same;
  busy_same = f.busy_same ∙ g.busy_same;
  cap_same = f.cap_same ∙ g.cap_same;
  filling_same = f.filling_same ∙ g.filling_same;
}

pub complete_if_ready-Frame : (st : Controller) → Frame (complete_if_ready st) st
unfolding complete_if_ready
complete_if_ready-Frame st =
    elim (Bool-cases (not (st.remaining == 0) || (not (st.active == 0) || st.completed))) [
      | inl wait ↦ rw (wait) (Frame-refl st)
      | inr go ↦ rw (go) (record {
        next_same = refl;
        size_same = refl;
        busy_same = refl;
        cap_same = refl;
        filling_same = refl;
      })
    ]

schedule-Frame : (i : ℕ) (st : Controller) → Frame (schedule i st) st
unfolding schedule
schedule-Frame i st = elim (Bool-cases (conn_at i st).active) [
  | inl busy ↦ rw (busy) (record {
    next_same = refl;
    size_same = refl;
    busy_same = refl;
    cap_same = refl;
    filling_same = refl;
  })
  | inr gone ↦ rw (gone) (Frame-refl st)
]

-- What a cancellation keeps: the invariant, whatever is owed, who is active, and the frame.
pub record Quiet (cancel : Controller → Controller) : Type 0 where
  pub keeps : (owed : ℕ → ℕ) (st : Controller) → Inv owed st → Inv owed (cancel st)
  pub still_active :
      (st : Controller) (j : ℕ) → (conn_at j (cancel st)).active ≡ (conn_at j st).active
  pub framed : (st : Controller) → Frame (cancel st) st

pub complete_if_ready-conns : (st : Controller) → (complete_if_ready st).conns ≡ st.conns
unfolding complete_if_ready
complete_if_ready-conns st =
    elim (Bool-cases (not (st.remaining == 0) || (not (st.active == 0) || st.completed))) [
      | inl wait ↦ rw (wait) refl
      | inr go ↦ rw (go) refl
    ]

pub schedule-conns : (i : ℕ) (st : Controller) → (schedule i st).conns ≡ st.conns
unfolding schedule
schedule-conns i st = elim (Bool-cases (conn_at i st).active) [
  | inl busy ↦ rw (busy) refl
  | inr gone ↦ rw (gone) refl
]

-- The cancellation that a bad result may bring about.
unfoldable pub stopped_by : (Controller → Controller) → ℕ → Controller → Controller
stopped_by cancel i left =
    if left.fail_fast && (not left.cancelling && is_bad (conn_at i left).result)
    then cancel left
    else left

pub stopped_by-Quiet :
    (cancel : Controller → Controller) (i : ℕ) → Quiet cancel → Quiet (stopped_by cancel i)
unfolding stopped_by
stopped_by-Quiet cancel i quiet = record {
  keeps = λ owed st inv.
      elim (Bool-cases (st.fail_fast && (not st.cancelling && is_bad (conn_at i st).result))) [
        | inl stop ↦ rw (stop) (quiet.keeps owed st inv)
        | inr go ↦ rw (go) inv
      ];
  still_active = λ st j.
      elim (Bool-cases (st.fail_fast && (not st.cancelling && is_bad (conn_at i st).result))) [
        | inl stop ↦ rw (stop) (quiet.still_active st j)
        | inr go ↦ rw (go) refl
      ];
  framed = λ st.
      elim (Bool-cases (st.fail_fast && (not st.cancelling && is_bad (conn_at i st).result))) [
        | inl stop ↦ rw (stop) (quiet.framed st)
        | inr go ↦ rw (go) (Frame-refl st)
      ];
}

module _ (cancel : Controller → Controller) (quiet : Quiet cancel) where
  pub finish_by-eq :
      (i : ℕ) (r : HostResult) (st : Controller)
      → (conn_at i st).done ≡ false
      → finish_by cancel i r st
        ≡ complete_if_ready (schedule i (stopped_by cancel i (marked i r st)))
  unfolding finish_by on_conn_done_by stopped_by
  finish_by-eq i r st not_done = rw (not_done) refl

  -- The end of a connection keeps the invariant.
  pub finish_by-Inv :
      (owed : ℕ → ℕ) (i : ℕ) (r : HostResult) (st : Controller)
      → (st.cancelling ≡ false → (conn_at i st).done ≡ false → i < st.next_to_start)
      → Inv owed st
      → Inv owed (finish_by cancel i r st)
  unfolding finish_by
  finish_by-Inv owed i r st taken inv = elim (Bool-cases (conn_at i st).done) [
    | inl over ↦ rw (over) inv
    | inr not_done ↦
        let left = marked i r st in
        let mid =
          (stopped_by-Quiet cancel i quiet).keeps _ left
            (marked-Inv owed i r st inv not_done (λ running. taken running not_done)) in
        subst (Inv owed) (sym (finish_by-eq i r st not_done)) (
          complete_if_ready-Inv owed _ (
            schedule-Inv owed i (stopped_by cancel i left) (
              subst (λ b. Inv (λ j. owed j + owes i (weight b) j) (stopped_by cancel i left))
                (sym (
                  (stopped_by-Quiet cancel i quiet).still_active left i
                  ∙ marked-active i r st not_done i))
                mid)))
  ]

  pub finish_by-active :
      (i : ℕ) (r : HostResult) (st : Controller) (j : ℕ)
      → (conn_at j (finish_by cancel i r st)).active ≡ (conn_at j st).active
  unfolding finish_by
  finish_by-active i r st j = elim (Bool-cases (conn_at i st).done) [
    | inl over ↦ rw (over) refl
    | inr not_done ↦
        ap (λ s. (conn_at j s).active) (finish_by-eq i r st not_done)
        ∙ ap (λ cs. (get_or cs j no_conn).active) (complete_if_ready-conns _ ∙ schedule-conns i _)
        ∙ (stopped_by-Quiet cancel i quiet).still_active (marked i r st) j
        ∙ marked-active i r st not_done j
  ]

  pub finish_by-Frame :
      (i : ℕ) (r : HostResult) (st : Controller) → Frame (finish_by cancel i r st) st
  unfolding finish_by
  finish_by-Frame i r st = elim (Bool-cases (conn_at i st).done) [
    | inl over ↦ rw (over) (Frame-refl st)
    | inr not_done ↦
        let left = marked i r st in
        let ended : Frame left st = record {
          next_same = refl;
          size_same = length-set st.conns i (record (conn_at i st) { result = r; done = true });
          busy_same = refl;
          cap_same = refl;
          filling_same = refl;
        } in
        let stopped = Frame-trans _ left st ((stopped_by-Quiet cancel i quiet).framed left) ended in
        let noted = Frame-trans _ _ st (schedule-Frame i (stopped_by cancel i left)) stopped in
        subst (λ s. Frame s st) (sym (finish_by-eq i r st not_done))
          (Frame-trans _ _ st (complete_if_ready-Frame _) noted)
  ]
