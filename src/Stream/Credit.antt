-- ===== src/Stream/Credit.antt =====
-- include/psx/stream/credit_window.hpp and src/stream/credit_window.cpp: credit-based flow control.
-- The fields are `std::uint32_t`; their arithmetic wraps at 2 ^ 32, written out.
pub mod Laws
use pipe_shell_x.Base.{ℕ, ◌/◌, Bool, true, false, ◌&&◌, ◌||◌, min, ltb, leb, ◌==◌, if◌then◌else◌}
use pipe_shell_x.Base.Words.{add32, sub32}

pub record CreditWindow : Type 0 where
  pub window : ℕ
  pub threshold : ℕ
  pub outstanding : ℕ
  pub pending_update : ℕ

-- The constructor: a threshold of 0 stands for half the window.
unfoldable pub create : ℕ → ℕ → CreditWindow
create window update_threshold = record {
  window = window;
  threshold = if update_threshold == 0 then window / 2 else update_threshold;
  outstanding = 0;
  pending_update = 0;
}

pub sendable : CreditWindow → ℕ
sendable w = sub32 w.window w.outstanding

-- `onData`
unfoldable pub on_data : ℕ → CreditWindow → Bool × CreditWindow
unfolding sendable
on_data n w =
    if ltb (sendable w) n
    then (false, w)
    else (true, record w { outstanding = add32 w.outstanding n })

-- `onConsumed`: the increment to advertise, and the window left.
unfoldable pub on_consumed : ℕ → CreditWindow → ℕ × CreditWindow
on_consumed count w =
    let n = min count w.outstanding in
    let w' = record w {
      outstanding = sub32 w.outstanding n;
      pending_update = add32 w.pending_update n;
    } in
    if ltb 0 w'.pending_update && (leb w'.threshold w'.pending_update || w'.outstanding == 0)
    then (w'.pending_update, record w' { pending_update = 0 })
    else (0, w')
