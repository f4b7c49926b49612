-- ===== src/Backoff.antt =====
-- include/psx/runtime/backoff.hpp: the full delay before a retry. Milliseconds are numbers, a negative
-- duration being 0 there; a `uint64_t` shift drops what passes 2 ^ 64. The jitter, a product of doubles,
-- is not modelled.
mod Bounds
mod Tests
use pipe_shell_x.Base.{
  ℕ, zero, suc, ◌+◌, ◌-◌, ◌*◌, ◌/◌, ◌%◌, ◌^◌, Bool, true, false, not, ◌&&◌, ◌||◌, min, max, ltb,
  leb, ◌==◌, if◌then◌else◌,
}

-- The loop: at most `rounds` doublings, and none from the cap on.
pub doubled : ℕ → ℕ → ℕ → ℕ
doubled zero cap_ms full = full
doubled (suc rounds) cap_ms full =
    let more = doubled rounds cap_ms (full * 2 % 2 ^ 64) in
    if not (cap_ms == 0) && leb cap_ms full then full else more

pub capped : ℕ → ℕ → ℕ
capped cap_ms full = if cap_ms == 0 then full else min full cap_ms

-- The loop runs for `i` from 1 below `attempt` and below 32.
pub rounds_of : ℕ → ℕ
rounds_of attempt = min (max attempt 1 - 1) 31

-- `backoffDelay`, up to the jitter.
pub full_delay : ℕ → ℕ → ℕ → ℕ
full_delay attempt base_ms cap_ms = capped cap_ms (doubled (rounds_of attempt) cap_ms base_ms)
