-- ===== src/Stream/Channel.antt =====
-- include/psx/stream/stream.hpp and src/stream/stream.cpp: the byte channel with the state machine of a
-- pipe, over a bounded buffer and a spill file.
pub mod Reads
pub mod Writes
pub mod States
pub mod Ends
mod Tests
use pipe_shell_x.Base.{
  ℕ, zero, suc, ◌+◌, ◌-◌, ◌*◌, [], ◌∷◌, ◌++◌, Option, none, some, Bool, true, false, not, ◌&&◌,
  ◌||◌, Bytes, length, take, drop, min, ltb, ◌==◌, if◌then◌else◌,
}
use pipe_shell_x.Base.Errors.{Error}
use pipe_shell_x.Stream.Buffer
use pipe_shell_x.Stream.Buffer.{
  BoundedBuffer, OverflowPolicy, block, drop_newest, drop_oldest, spool, drops_on_overflow,
}
use pipe_shell_x.Stream.Spool
use pipe_shell_x.Stream.Spool.{Stdio, SpoolBuffer}

pub data StreamState : Type 0 where
  live half_closed_remote half_closed_local closed error : StreamState

pub record Stream : Type 0 where
  pub buffer : BoundedBuffer
  pub spool : SpoolBuffer
  pub state : StreamState
  pub failure : Option Error

-- The constructor.
unfoldable pub create : ℕ → OverflowPolicy → Stream
create capacity policy = record {
  buffer = Buffer.create capacity policy;
  spool = Spool.create;
  state = live;
  failure = none;
}

pub is_spool : OverflowPolicy → Bool
is_spool spool = true
is_spool block = false
is_spool drop_newest = false
is_spool drop_oldest = false

-- `readable`
unfoldable pub readable : Stream → Bool
readable s = ltb 0 s.buffer.size || not (Spool.is_empty s.spool)

-- The spill file closed once it is read to its end.
pub reset_if_empty : SpoolBuffer → SpoolBuffer
reset_if_empty b = if Spool.is_empty b then Spool.reset b else b

-- `maybeCloseAfterDrain`
pub closed_if : Bool → StreamState → StreamState
closed_if drained half_closed_remote = if drained then closed else half_closed_remote
closed_if drained live = live
closed_if drained half_closed_local = half_closed_local
closed_if drained closed = closed
closed_if drained error = error

pub maybe_close_after_drain : Stream → Stream
maybe_close_after_drain s = record s { state = closed_if (not (readable s)) s.state }

-- `closeRemote`
pub after_close_remote : StreamState → StreamState
after_close_remote live = half_closed_remote
after_close_remote half_closed_local = closed
after_close_remote half_closed_remote = half_closed_remote
after_close_remote closed = closed
after_close_remote error = error

pub close_remote : Stream → Stream
close_remote s = record s { state = after_close_remote s.state }

pub discarded : StreamState → Stream → Stream
discarded state s = record s {
  state = state;
  buffer = Buffer.clear s.buffer;
  spool = Spool.reset s.spool;
}

-- `closeLocal`, from the state that is the first argument.
pub close_local_from : StreamState → Stream → Stream
close_local_from live s = discarded half_closed_local s
close_local_from half_closed_remote s = discarded closed s
close_local_from half_closed_local s = s
close_local_from closed s = s
close_local_from error s = s

pub close_local : Stream → Stream
close_local s = close_local_from s.state s

pub is_finished : StreamState → Bool
is_finished closed = true
is_finished error = true
is_finished live = false
is_finished half_closed_remote = false
is_finished half_closed_local = false

-- `fail`
pub fail : Error → Stream → Stream
fail e s = if is_finished s.state then s else record s { state = error; failure = some e }

pub is_live : StreamState → Bool
is_live live = true
is_live half_closed_remote = false
is_live half_closed_local = false
is_live closed = false
is_live error = false

-- `writable`
pub writable : Stream → Bool
writable s =
    if not (is_live s.state)
    then false
    else if is_spool s.buffer.policy
    then true
    else drops_on_overflow s.buffer.policy || not (Buffer.is_full s.buffer)

-- `atEnd`, in the state that is the first argument.
pub at_end_in : StreamState → Stream → Bool
at_end_in half_closed_remote s = not (readable s)
at_end_in live s = false
at_end_in closed s = true
at_end_in error s = true
at_end_in half_closed_local s = true

pub at_end : Stream → Bool
at_end s = at_end_in s.state s

abbrev pub chunk_size : ℕ
chunk_size = 64 * 1024

module _ (io : Stdio) where
  -- `appendSpool` of some bytes behind a spill file that holds bytes.
  pub append_behind : Bytes → Stream → ℕ × Stream
  append_behind bytes s =
      let (accepted, file) = Spool.append io bytes s.spool in
      (if accepted then length bytes else 0, record s { spool = file })

  -- `appendSpool` of some bytes with the spill file empty.
  pub append_both : Bytes → Stream → ℕ × Stream
  append_both bytes s =
      let (accepted, buffer) = Buffer.append bytes s.buffer in
      let (spilled, file) = Spool.append io (drop accepted bytes) s.spool in
      if accepted == length bytes
      then (accepted, record s { buffer = buffer })
      else (if spilled then length bytes else accepted, record s { buffer = buffer; spool = file })

  -- `appendSpool`
  pub append_spool : Bytes → Stream → ℕ × Stream
  append_spool bytes s =
      if length bytes == 0
      then (0, s)
      else if not (Spool.is_empty s.spool)
      then append_behind bytes s
      else append_both bytes s

  -- `write` to the buffer, with no spill file.
  pub append_buffer : Bytes → Stream → ℕ × Stream
  append_buffer bytes s =
      let (accepted, buffer) = Buffer.append bytes s.buffer in
      (accepted, record s { buffer = buffer })

  -- `write`
  pub write : Bytes → Stream → ℕ × Stream
  write bytes s =
      if not (is_live s.state)
      then (0, s)
      else if is_spool s.buffer.policy
      then append_spool bytes s
      else append_buffer bytes s

  -- The refill of an empty buffer.
  pub refill : Stream → Stream
  refill s =
      let (chunk, file) = Spool.read io (min chunk_size s.buffer.capacity) s.spool in
      let (_, buffer) = Buffer.append chunk s.buffer in
      if length chunk == 0
      then record s { spool = file }
      else record s { buffer = buffer; spool = reset_if_empty file }

  -- `fillFromSpool`
  pub fill_from_spool : Stream → Stream
  fill_from_spool s =
      if not (Buffer.is_empty s.buffer) || (s.buffer.capacity == 0) || Spool.is_empty s.spool
      then s
      else refill s

  -- `spool_.read`, and the reset of a spill file that is at its end.
  pub read_spool : ℕ → Stream → Bytes × Stream
  read_spool room s =
      let (out, file) = Spool.read io room s.spool in
      (out, record s { spool = reset_if_empty file })

  pub read_buffer : ℕ → Stream → Bytes × Stream
  read_buffer room s =
      let (out, buffer) = Buffer.consume room s.buffer in (out, record s { buffer = buffer })

  -- One round of the loop of `read`, the buffer filled: the bytes moved, none where the loop breaks.
  pub read_round : ℕ → Stream → Bytes × Stream
  read_round room s =
      if not (Buffer.is_empty s.buffer)
      then read_buffer room s
      else if (s.buffer.capacity == 0) && not (Spool.is_empty s.spool)
      then read_spool room s
      else ([], s)

  -- The loop of `read`. Each round but the last moves a byte.
  pub read_loop : ℕ → ℕ → Stream → Bytes × Stream
  read_loop zero room s = ([], s)
  read_loop (suc fuel) room s =
      let (out, s') = read_round room (fill_from_spool s) in
      let (more, s'') = read_loop fuel (room - length out) s' in
      if room == 0 then ([], s) else if length out == 0 then ([], s') else (out ++ more, s'')

  pub is_error : StreamState → Bool
  is_error error = true
  is_error live = false
  is_error half_closed_remote = false
  is_error half_closed_local = false
  is_error closed = false

  -- `read` into a span of `room` bytes.
  pub read : ℕ → Stream → Bytes × Stream
  read room s =
      let (out, s') = read_loop (suc room) room s in
      if is_error s.state then ([], s) else (out, maybe_close_after_drain s')

  -- `peek`
  pub peek : Stream → Bytes × Stream
  peek s = let s' = fill_from_spool s in (Buffer.peek s'.buffer, s')

  -- One round of the loop of `drop`, the buffer filled: how many bytes went, 0 where the loop breaks.
  pub drop_round : ℕ → Stream → ℕ × Stream
  drop_round n s =
      let from_buffer = min n s.buffer.size in
      let (out, s') = read_spool (min n chunk_size) s in
      if ltb 0 from_buffer
      then (from_buffer, record s { buffer = Buffer.drop_front from_buffer s.buffer })
      else if (s.buffer.capacity == 0) && not (Spool.is_empty s.spool)
      then (length out, s')
      else (0, s)

  pub drop_loop : ℕ → ℕ → Stream → Stream
  drop_loop zero n s = s
  drop_loop (suc fuel) n s =
      let (gone, s') = drop_round n (fill_from_spool s) in
      let rest = drop_loop fuel (n - gone) s' in
      if n == 0 then s else if gone == 0 then s' else rest

  -- `drop`
  pub drop_front : ℕ → Stream → Stream
  drop_front n s = maybe_close_after_drain (drop_loop (suc n) n s)
