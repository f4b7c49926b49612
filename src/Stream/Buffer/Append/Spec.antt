-- ===== src/Stream/Buffer/Append/Spec.antt =====
-- A bounded queue that is told its overflow policy: the contract of `BoundedBuffer::append`.
use pipe_shell_x.Base.{ℕ, ◌+◌, ◌-◌, ◌%◌, ◌^◌, ◌≡◌, ◌++◌, Bytes, min, length, take, drop}
use pipe_shell_x.Stream.Buffer.{
  BoundedBuffer, OverflowPolicy, block, drop_newest, drop_oldest, spool,
}
use pipe_shell_x.Stream.Buffer.Valid.{IsValid, contents}

-- What a queue of at most `cap` bytes keeps of `q` and the new bytes behind it.
abbrev pub kept_by : OverflowPolicy → ℕ → Bytes → Bytes → Bytes
kept_by block cap q bytes = take cap (q ++ bytes)
kept_by spool cap q bytes = take cap (q ++ bytes)
kept_by drop_newest cap q bytes = take cap (q ++ bytes)
kept_by drop_oldest cap q bytes = drop (length q + length bytes - cap) (q ++ bytes)

-- How many of the new bytes the caller is rid of.
abbrev pub accepted_by : OverflowPolicy → ℕ → Bytes → Bytes → ℕ
accepted_by block cap q bytes = min (length bytes) (cap - length q)
accepted_by spool cap q bytes = min (length bytes) (cap - length q)
accepted_by drop_newest cap q bytes = length bytes
accepted_by drop_oldest cap q bytes = length bytes

-- How many bytes are lost.
abbrev pub lost_by : OverflowPolicy → ℕ → Bytes → Bytes → ℕ
lost_by block cap q bytes = 0
lost_by spool cap q bytes = 0
lost_by drop_newest cap q bytes = length q + length bytes - cap
lost_by drop_oldest cap q bytes = length q + length bytes - cap

-- The outcome of an append of `bytes` to `b` is the queue's, under policy `p`.
pub record Appended (p : OverflowPolicy) (b : BoundedBuffer) (bytes : Bytes)
    (out : ℕ × BoundedBuffer) : Type 0 where
  pub count : out.0 ≡ accepted_by p b.capacity (contents b) bytes
  pub kept : contents out.1 ≡ kept_by p b.capacity (contents b) bytes
  pub lost : out.1.dropped ≡ (b.dropped + lost_by p b.capacity (contents b) bytes) % 2 ^ 64
  pub valid : IsValid out.1
  pub same_capacity : out.1.capacity ≡ b.capacity
  pub same_policy : out.1.policy ≡ b.policy
