-- ===== src/Transport/Controller/Retire.antt =====
-- The retirement of a connection that is done.
use native.Mathlib.Decide.{dec_lt}
use pipe_shell_x.Base.{
  ℕ, ◌+◌, ◌-◌, ◌≡◌, ◌≤◌, ◌<◌, refl, sym, ap, subst, ◌∙◌, inl, inr, [], ◌∷◌, List, Option, Bool,
  true, false, ◌&&◌, Bytes, length, ◌==◌, if◌then◌else◌, set, arith, Bool-cases, ==_iff, length-set,
}
use pipe_shell_x.Base.Counts.{hit, count, hit_same, hit_other}
use pipe_shell_x.Transport.Controller.{
  Controller, Conn, conn_at, complete_if_ready, fill_slots, leave, retire,
}
use pipe_shell_x.Transport.Controller.Tally.{
  weight, weight-le, tally-set, open_weight, busy_weight, idle_weight,
}
use pipe_shell_x.Transport.Controller.Inv.{Inv, nothing_owed, written}
use pipe_shell_x.Transport.Controller.Fill.{Core}
use pipe_shell_x.Transport.Controller.Rest.{
  Rest, complete_if_ready-Rest, cancelling-stuck, fill_slots-Core, fill_slots_stuck,
  fill_slots_idle,
}

-- The timers without one of those of a connection, which has fired.
unfoldable pub fired : ℕ → List ℕ → List ℕ
fired i [] = []
fired i (j ∷ timers) = let rest = fired i timers in if j == i then timers else j ∷ rest

count-fired :
    (i j : ℕ) (timers : List ℕ)
    → 0 < count i timers
    → count j (fired i timers) + hit i j ≡ count j timers
unfolding fired
count-fired i j [] there = absurd (omega arith)
count-fired i j (k ∷ timers) there = elim (Bool-cases (k == i)) [
  | inl this ↦ rw (this) (omega (arith, ap (λ a. hit a j) ((==_iff k i).0 this)))
  | inr past ↦ rw (past) (omega (arith, count-fired i j timers (ground (arith, there, past))))
]

and_one : (a b : Bool) → weight (a && b) ≡ 1 → (a ≡ true) × (b ≡ true)
and_one true true e = (refl, refl)
and_one true false e = absurd (omega (arith, e))
and_one false b e = absurd (omega (arith, e))

-- The retirement of a connection whose timer has fired.
module _ (i : ℕ) (st : Controller) (rest : Rest st) (due : 0 < count i st.timers) where
  abbrev inv : Inv nothing_owed st
  inv = rest.core.inv

  once_due : count i st.timers ≡ 1
  once_due =
      omega (arith, inv.scheduled i, weight-le ((conn_at i st).active && (conn_at i st).done), due)

  both : ((conn_at i st).active ≡ true) × ((conn_at i st).done ≡ true)
  both =
      and_one (conn_at i st).active (conn_at i st).done (omega (arith, inv.scheduled i, once_due))

  below_next : i < st.next_to_start
  below_next = elim (dec_lt i st.next_to_start) [
    | yes below ↦ below
    | no late ↦
        absurd (let never : true ≡ false = sym both.0 ∙ inv.unstarted i (omega (arith, late)) in cc)
  ]

  in_range : i < length st.conns
  in_range = omega (arith, below_next, inv.bounded)

  abbrev gone : Conn
  gone = record (conn_at i st) { active = false }

  abbrev clocked : Controller
  clocked = record st { timers = fired i st.timers }

  abbrev left : Controller
  left = record st {
    timers = fired i st.timers;
    conns = set st.conns i gone;
    active = st.active - 1;
  }

  leave-eq : leave i clocked ≡ left
  unfolding leave
  leave-eq = rw (both.0) refl

  same_size : length (set st.conns i gone) ≡ length st.conns
  same_size = length-set st.conns i gone

  some_busy : 0 < st.active
  some_busy =
      let was : weight (conn_at i st).active ≡ 1 = ap weight both.0 in
      omega (arith, inv.busy_count, tally-set busy_weight st.conns i gone in_range, was)

  still_open : st.completed ≡ false
  still_open = elim (Bool-cases st.completed) [
    | inr running ↦ running
    | inl over ↦
        let (_, (_, none_busy)) = inv.once over in absurd (omega (arith, some_busy, none_busy))
  ]

  left-Inv : Inv nothing_owed left
  left-Inv = record {
    open_count = omega (arith, inv.open_count, tally-set open_weight st.conns i gone in_range);
    busy_count =
        omega
          (arith, inv.busy_count, tally-set busy_weight st.conns i gone in_range, ap weight both.0);
    scheduled = λ j. elim (written st i j gone in_range) [
      | inl (e, at) ↦
          let none_now : count i (fired i st.timers) ≡ 0 =
            omega (arith, count-fired i i st.timers due, once_due, hit_same i) in
          let here : count j (fired i st.timers) + 0 ≡ 0 =
            subst (λ k. count k (fired i st.timers) + 0 ≡ 0) e (omega (arith, none_now)) in
          here ∙ sym (ap idle_weight at)
      | inr (ne, at) ↦
          let as_before : count j (fired i st.timers) + 0 ≡ count j st.timers + 0 =
            omega (arith, count-fired i j st.timers due, hit_other i j ne) in
          as_before ∙ inv.scheduled j ∙ sym (ap idle_weight at)
    ];
    bounded = omega (arith, inv.bounded, same_size);
    unstarted = λ j late. elim (written st i j gone in_range) [
      | inl (e, at) ↦ ap (λ c. c.active) at
      | inr (ne, at) ↦ ap (λ c. c.active) at ∙ inv.unstarted j late
    ];
    untouched = λ go j late below. elim (written st i j gone in_range) [
      | inl (e, at) ↦ absurd (omega (arith, below_next, late, e))
      | inr (ne, at) ↦
          ap (λ c. c.done) at ∙ inv.untouched go j late (omega (arith, below, same_size))
    ];
    started = λ j early still. elim (written st i j gone in_range) [
      | inl (e, at) ↦
          absurd (let never : true ≡ false = sym (ap (λ c. c.done) at ∙ both.1) ∙ still in cc)
      | inr (ne, at) ↦
          ap (λ c. c.active) at ∙ inv.started j early (sym (ap (λ c. c.done) at) ∙ still)
    ];
    within =
        let kept =
          subst (λ n. st.active ≤ (if st.concurrency == 0 then n else st.concurrency))
            (sym same_size) inv.within in
        omega (arith, kept);
    silent = inv.silent;
    once = λ over. absurd (let never : true ≡ false = sym over ∙ still_open in cc);
  }

  left-Core : Core left
  left-Core = record {
    inv = left-Inv;
    swept = λ stopped j. elim (written st i j gone in_range) [
      | inl (e, at) ↦ ap (λ c. c.done) at ∙ both.1
      | inr (ne, at) ↦ ap (λ c. c.done) at ∙ rest.core.swept stopped j
    ];
  }

  module _ (connects : ℕ → Option Bytes) where
    abbrev refilled : Controller
    refilled = if left.cancelling then left else fill_slots connects left

    retire-eq : retire connects i clocked ≡ complete_if_ready refilled
    unfolding retire
    retire-eq =
        ap (λ s. complete_if_ready (if s.cancelling then s else fill_slots connects s)) leave-eq

    pub retire-Rest : Rest (retire connects i clocked)
    retire-Rest = elim (Bool-cases st.cancelling) [
      | inl stopped ↦
          subst Rest
            (sym (
              retire-eq
              ∙ ap (λ b. complete_if_ready (if b then left else fill_slots connects left)) stopped))
            (complete_if_ready-Rest left left-Core (cancelling-stuck left stopped) rest.idle)
      | inr running ↦
          subst Rest
            (sym (
              retire-eq
              ∙ ap (λ b. complete_if_ready (if b then left else fill_slots connects left)) running))
            (complete_if_ready-Rest (fill_slots connects left)
              (fill_slots-Core connects left left-Core still_open running rest.idle)
              (fill_slots_stuck connects left left-Core still_open running rest.idle)
              (fill_slots_idle connects left left-Core still_open running rest.idle))
    ]
