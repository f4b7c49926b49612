-- ===== src/Stream/Credit/Laws.antt =====
-- The credit ledger: what the peer may send is what it was granted and has not sent.
use pipe_shell_x.Base.{ℕ, ◌+◌, ◌-◌, ◌^◌, ◌≡◌, ◌≤◌, ◌<◌, true, false, arith, ◌⊎◌}
use pipe_shell_x.Stream.Credit.{CreditWindow, create, sendable, on_data, on_consumed}

-- No credit is granted twice: what is delivered and not consumed, and what is consumed and not yet
-- advertised, fit in the window together.
pub record IsValid (w : CreditWindow) : Type 0 where
  pub word : w.window < 2 ^ 32
  pub ledger : w.outstanding + w.pending_update ≤ w.window
  pub pending_waits :
      (w.pending_update ≡ 0) ⊎ ((w.pending_update < w.threshold) × (0 < w.outstanding))

pub create-IsValid : (window threshold : ℕ) → window < 2 ^ 32 → IsValid (create window threshold)
unfolding create
create-IsValid window threshold h = ground arith

-- What the peer believes that it may send: the window, less what is delivered and not yet advertised.
abbrev pub peer_credit : CreditWindow → ℕ
peer_credit w = w.window - w.outstanding - w.pending_update

-- A sender that keeps to its credit is never refused; the frame uses its credit up, byte for byte.
pub on_data-accepts :
    (n : ℕ) (w : CreditWindow)
    → IsValid w
    → n ≤ peer_credit w
    → ((on_data n w).0 ≡ true)
      × IsValid (on_data n w).1
      × (peer_credit (on_data n w).1 + n ≡ peer_credit w)
unfolding on_data sendable
on_data-accepts n w v h = ground arith

-- `onData` refuses just the frames that pass the window, and then changes nothing.
pub on_data-refuses :
    (n : ℕ) (w : CreditWindow)
    → IsValid w
    → ((on_data n w).0 ≡ false → (w.window < w.outstanding + n) × ((on_data n w).1 ≡ w))
      × (w.window < w.outstanding + n → (on_data n w).0 ≡ false)
unfolding on_data sendable
on_data-refuses n w v = ground arith

-- Consuming keeps the ledger, and grants the peer just the increment that is advertised.
pub on_consumed-grants :
    (n : ℕ) (w : CreditWindow)
    → IsValid w
    → let (increment, w') = on_consumed n w in
      IsValid w'
      × (peer_credit w' ≡ peer_credit w + increment)
      × (w'.outstanding ≡ w.outstanding - n)
unfolding on_consumed
on_consumed-grants n w v = ground arith

-- No credit is sat on: once all that was delivered is consumed, the peer may send a full window.
pub on_consumed-restores :
    (n : ℕ) (w : CreditWindow)
    → IsValid w
    → w.outstanding ≤ n
    → peer_credit (on_consumed n w).1 ≡ w.window
unfolding on_consumed
on_consumed-restores n w v h = ground arith
