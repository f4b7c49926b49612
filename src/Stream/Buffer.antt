-- ===== src/Stream/Buffer.antt =====
-- include/psx/stream/bounded_buffer.hpp and src/stream/bounded_buffer.cpp: the bounded FIFO of bytes.
-- `std::size_t` arithmetic wraps at 2 ^ 64, written out; a `std::span` is the list of its bytes.
pub mod Valid
pub mod Append
pub mod Consume
use pipe_shell_x.Base.{
  ℕ, zero, suc, ◌+◌, ◌-◌, ◌%◌, ◌≡◌, refl, Bool, true, false, ◌||◌, not, [], ◌∷◌, ◌++◌, Bytes, min,
  length, take, drop, replicate, ltb, leb, ◌==◌, if◌then◌else◌,
}
use pipe_shell_x.Base.Words.{add64, sub64}
use pipe_shell_x.Stream.Window.{blit}

pub data OverflowPolicy : Type 0 where
  block drop_newest drop_oldest spool : OverflowPolicy

-- `dropsOnOverflow`
unfoldable pub drops_on_overflow : OverflowPolicy → Bool
drops_on_overflow drop_newest = true
drops_on_overflow drop_oldest = true
drops_on_overflow block = false
drops_on_overflow spool = false

pub record BoundedBuffer : Type 0 where
  pub storage : Bytes
  pub capacity : ℕ
  pub head : ℕ
  pub size : ℕ
  pub dropped : ℕ
  pub policy : OverflowPolicy

-- The constructor. `storage_(capacity)` is that many zero bytes.
unfoldable pub create : ℕ → OverflowPolicy → BoundedBuffer
create capacity policy = record {
  storage = replicate capacity 0;
  capacity = capacity;
  head = 0;
  size = 0;
  dropped = 0;
  policy = policy;
}

abbrev pub available : BoundedBuffer → ℕ
available b = sub64 b.capacity b.size

abbrev pub is_empty : BoundedBuffer → Bool
is_empty b = b.size == 0

abbrev pub is_full : BoundedBuffer → Bool
is_full b = b.size == b.capacity

-- The two `memcpy` calls of `appendUpTo`, for `n` bytes behind index `tail`.
pub copy_in : Bytes → ℕ → ℕ → ℕ → Bytes → Bytes
copy_in storage capacity tail n bytes =
    let first_run = min n (sub64 capacity tail) in
    let once = blit storage tail (take first_run bytes) in
    if ltb first_run n then blit once 0 (take (sub64 n first_run) (drop first_run bytes)) else once

-- `appendUpTo`: the number of bytes taken, and the new buffer.
pub append_up_to : Bytes → BoundedBuffer → ℕ × BoundedBuffer
append_up_to bytes b =
    let n = min (length bytes) (available b) in
    if n == 0 then (0, b) else (
      n,
      record b {
        storage = copy_in b.storage b.capacity (add64 b.head b.size % b.capacity) n bytes;
        size = add64 b.size n;
      },
    )

-- `discardFront`
pub discard_front : ℕ → BoundedBuffer → BoundedBuffer
discard_front count b =
    let n = min count b.size in
    record b {
      head = add64 b.head n % (if b.capacity == 0 then 1 else b.capacity);
      size = sub64 b.size n;
    }

unfoldable pub clear : BoundedBuffer → BoundedBuffer
clear b = record b { head = 0; size = 0 }

abbrev count_dropped : ℕ → BoundedBuffer → BoundedBuffer
count_dropped n b = record b { dropped = add64 b.dropped n }

-- The `DropOldest` case of `append`.
pub append_drop_oldest : Bytes → BoundedBuffer → ℕ × BoundedBuffer
append_drop_oldest bytes b =
    if leb b.capacity (length bytes)
    then (let lost = add64 b.size (sub64 (length bytes) b.capacity) in
        (
          length bytes,
          (append_up_to (drop (sub64 (length bytes) b.capacity) bytes)
              (clear (count_dropped lost b))).1,
        ))
    else if ltb (available b) (length bytes)
    then (let evict = sub64 (length bytes) (available b) in
        (length bytes, (append_up_to bytes (discard_front evict (count_dropped evict b))).1))
    else (length bytes, (append_up_to bytes b).1)

pub append_by : OverflowPolicy → Bytes → BoundedBuffer → ℕ × BoundedBuffer
append_by block bytes b = append_up_to bytes b
append_by spool bytes b = append_up_to bytes b
append_by drop_newest bytes b =
    let (accepted, b') = append_up_to bytes b in
    (length bytes, count_dropped (sub64 (length bytes) accepted) b')
append_by drop_oldest bytes b = append_drop_oldest bytes b

-- `append`: how many bytes the caller need not retain, and the new buffer.
pub append : Bytes → BoundedBuffer → ℕ × BoundedBuffer
unfolding append_by
append bytes b =
    if (b.capacity == 0) || (length bytes == 0)
    then (if drops_on_overflow b.policy
        then (length bytes, count_dropped (length bytes) b)
        else (0, b))
    else append_by b.policy bytes b

-- The loop of `consume`: `left` bytes of the `n` are still to be copied. Each round copies a byte at
-- least, so `left` rounds are enough; `fuel` counts them.
pub consume_loop : ℕ → ℕ → Bytes → BoundedBuffer → Bytes × BoundedBuffer
consume_loop zero left out b = (out, b)
consume_loop (suc fuel) left out b =
    let run = min left (sub64 b.capacity b.head) in
    let rest =
      consume_loop fuel (sub64 left run) (out ++ take run (drop b.head b.storage))
        (record b { head = add64 b.head run % b.capacity }) in
    if left == 0 then (out, b) else rest

-- `consume` into a span of `room` bytes: the bytes copied out, and the new buffer.
pub consume : ℕ → BoundedBuffer → Bytes × BoundedBuffer
consume room b =
    let n = min room b.size in
    let (out, b') = consume_loop n n [] b in (out, record b' { size = sub64 b'.size n })

-- `peek`: the contiguous run of bytes at the front.
pub peek : BoundedBuffer → Bytes
peek b =
    if b.size == 0 then [] else take (min b.size (sub64 b.capacity b.head)) (drop b.head b.storage)

-- `drop`
unfoldable pub drop_front : ℕ → BoundedBuffer → BoundedBuffer
unfolding discard_front
drop_front n b = discard_front n b
