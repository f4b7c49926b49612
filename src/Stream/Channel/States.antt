-- ===== src/Stream/Channel/States.antt =====
-- The states of a channel along the calls that it gets.
use pipe_shell_x.Base.{
  ℕ, zero, suc, ◌-◌, ◌≡◌, refl, sym, ap, subst, ◌∙◌, inl, inr, [], ◌∷◌, List, Bool, true, false,
  not, ◌&&◌, ◌||◌, Bytes, length, min, ltb, ◌==◌, arith, Bool-cases,
}
use pipe_shell_x.Base.Errors.{Error}
use pipe_shell_x.Text.Lists.{or_false}
use pipe_shell_x.Stream.Buffer
use pipe_shell_x.Stream.Buffer.{OverflowPolicy}
use pipe_shell_x.Stream.Spool
use pipe_shell_x.Stream.Spool.{Stdio}
use pipe_shell_x.Stream.Channel.{
  Stream, StreamState, live, half_closed_remote, half_closed_local, closed, error, create, readable,
  closed_if, maybe_close_after_drain, after_close_remote, close_remote, discarded, close_local_from,
  close_local, is_finished, fail, is_live, write, append_spool, append_behind, append_both,
  append_buffer, refill, fill_from_spool, read_spool, read_buffer, read_round, read_loop, is_error,
  read, drop_round, drop_loop, drop_front,
}

-- A call on a channel that can change its state or what it holds.
pub data Call : Type 0 where
  writes : Bytes → Call
  reads : ℕ → Call
  drops : ℕ → Call
  closes_remote : Call
  closes_local : Call
  fails : Error → Call

pub play_one : Stdio → Call → Stream → Stream
play_one io (writes bytes) s = (write io bytes s).1
play_one io (reads room) s = (read io room s).1
play_one io (drops n) s = drop_front io n s
play_one io closes_remote s = close_remote s
play_one io closes_local s = close_local s
play_one io (fails e) s = fail e s

pub play : Stdio → List Call → Stream → Stream
play io [] s = s
play io (call ∷ calls) s = play io calls (play_one io call s)

-- Whether the remote end is closed, and whether the channel is told to fail, behind some calls.
pub eof_after : Bool → List Call → Bool
eof_after eof [] = eof
eof_after eof (closes_remote ∷ calls) = eof_after true calls
eof_after eof (closes_local ∷ calls) = eof_after eof calls
eof_after eof (writes bytes ∷ calls) = eof_after eof calls
eof_after eof (reads room ∷ calls) = eof_after eof calls
eof_after eof (drops n ∷ calls) = eof_after eof calls
eof_after eof (fails e ∷ calls) = eof_after eof calls

pub failed_after : Bool → List Call → Bool
failed_after failed [] = failed
failed_after failed (fails e ∷ calls) = failed_after true calls
failed_after failed (closes_remote ∷ calls) = failed_after failed calls
failed_after failed (closes_local ∷ calls) = failed_after failed calls
failed_after failed (writes bytes ∷ calls) = failed_after failed calls
failed_after failed (reads room ∷ calls) = failed_after failed calls
failed_after failed (drops n ∷ calls) = failed_after failed calls

-- What a state says, `eof` being whether the remote end was closed, `failed` whether the channel was told
-- to fail, and `holds` whether it holds bytes.
abbrev pub Says : Bool → Bool → StreamState → Bool → Type 0
Says eof failed live holds = Unit
Says eof failed half_closed_remote holds = eof ≡ true
Says eof failed half_closed_local holds = holds ≡ false
Says eof failed closed holds = (eof ≡ true) × (holds ≡ false)
Says eof failed error holds = failed ≡ true

remote-Says :
    (eof failed : Bool) (a : StreamState) (holds : Bool)
    → Says eof failed a holds
    → Says true failed (after_close_remote a) holds
unfolding after_close_remote
remote-Says eof failed live holds says = refl
remote-Says eof failed half_closed_remote holds says = refl
remote-Says eof failed half_closed_local holds says = (refl, says)
remote-Says eof failed closed holds says = (refl, says.1)
remote-Says eof failed error holds says = says

readable-discarded : (a : StreamState) (s : Stream) → readable (discarded a s) ≡ false
unfolding readable discarded Buffer.clear Spool.reset Spool.is_empty Spool.remaining
readable-discarded a s = refl

local-Says :
    (eof failed : Bool) (a : StreamState) (s : Stream)
    → s.state ≡ a
    → Says eof failed a (readable s)
    → Says eof failed (close_local_from a s).state (readable (close_local_from a s))
unfolding close_local_from discarded
local-Says eof failed live s is says = readable-discarded half_closed_local s
local-Says eof failed half_closed_remote s is says = (says, readable-discarded closed s)
local-Says eof failed half_closed_local s is says =
    subst (λ a. Says eof failed a (readable s)) (sym is) says
local-Says eof failed closed s is says = subst (λ a. Says eof failed a (readable s)) (sym is) says
local-Says eof failed error s is says = subst (λ a. Says eof failed a (readable s)) (sym is) says

finished-Says :
    (eof failed : Bool) (a : StreamState) (holds : Bool)
    → is_finished a ≡ true
    → Says eof failed a holds
    → Says eof true a holds
unfolding is_finished
finished-Says eof failed live holds done says = cc
finished-Says eof failed half_closed_remote holds done says = cc
finished-Says eof failed half_closed_local holds done says = cc
finished-Says eof failed closed holds done says = says
finished-Says eof failed error holds done says = refl

live-Says :
    (eof failed : Bool) (a : StreamState) (holds : Bool)
    → is_live a ≡ true
    → Says eof failed a holds
unfolding is_live
live-Says eof failed live holds e = tt
live-Says eof failed half_closed_remote holds e = cc
live-Says eof failed half_closed_local holds e = cc
live-Says eof failed closed holds e = cc
live-Says eof failed error holds e = cc

-- A read or a drop that leaves nothing closes a channel whose remote end is closed.
drained-Says :
    (eof failed : Bool) (a : StreamState) (before after : Bool)
    → (before ≡ false → after ≡ false)
    → Says eof failed a before
    → Says eof failed (closed_if (not after) a) after
unfolding closed_if
drained-Says eof failed live before after less says = tt
drained-Says eof failed half_closed_remote before true less says = says
drained-Says eof failed half_closed_remote before false less says = (says, refl)
drained-Says eof failed half_closed_local before after less says = less says
drained-Says eof failed closed before after less says = (says.0, less says.1)
drained-Says eof failed error before after less says = says

module _ (io : Stdio) where
  write-state : (bytes : Bytes) (s : Stream) → (write io bytes s).1.state ≡ s.state
  unfolding write append_spool append_behind append_both append_buffer
  write-state bytes s = ground arith

  fill-state : (s : Stream) → (fill_from_spool io s).state ≡ s.state
  unfolding fill_from_spool refill
  fill-state s = ground arith

  read_round-state : (room : ℕ) (s : Stream) → (read_round io room s).1.state ≡ s.state
  unfolding read_round read_buffer read_spool
  read_round-state room s = ground arith

  drop_round-state : (n : ℕ) (s : Stream) → (drop_round io n s).1.state ≡ s.state
  unfolding drop_round read_spool
  drop_round-state n s = ground arith

  read_loop-state : (fuel room : ℕ) (s : Stream) → (read_loop io fuel room s).1.state ≡ s.state
  unfolding read_loop
  read_loop-state zero room s = refl
  read_loop-state (suc fuel) room s =
      let filled = fill_from_spool io s in
      let (out, s') = read_round io room filled in
      let first : s'.state ≡ s.state = read_round-state room filled ∙ fill-state s in
      let rest = read_loop-state fuel (room - length out) s' ∙ first in
      elim (Bool-cases (room == 0)) [
        | inl full ↦ rw full refl
        | inr wants ↦ elim (Bool-cases (length out == 0)) [
          | inl stuck ↦ rw (wants, stuck) first
          | inr moved ↦ rw (wants, moved) rest
        ]
      ]

  drop_loop-state : (fuel n : ℕ) (s : Stream) → (drop_loop io fuel n s).state ≡ s.state
  unfolding drop_loop
  drop_loop-state zero n s = refl
  drop_loop-state (suc fuel) n s =
      let filled = fill_from_spool io s in
      let (gone, s') = drop_round io n filled in
      let first : s'.state ≡ s.state = drop_round-state n filled ∙ fill-state s in
      let rest = drop_loop-state fuel (n - gone) s' ∙ first in
      elim (Bool-cases (n == 0)) [
        | inl full ↦ rw full refl
        | inr wants ↦ elim (Bool-cases (gone == 0)) [
          | inl stuck ↦ rw (wants, stuck) first
          | inr moved ↦ rw (wants, moved) rest
        ]
      ]

  fill_idle : (s : Stream) → readable s ≡ false → fill_from_spool io s ≡ s
  unfolding fill_from_spool readable
  fill_idle s nothing =
      let (_, spilled) = or_false (ltb 0 s.buffer.size) (not (Spool.is_empty s.spool)) nothing in
      let idle : (not (Buffer.is_empty s.buffer)
            || (s.buffer.capacity == 0)
            || Spool.is_empty s.spool)
          ≡ true =
        last_holds (not (Buffer.is_empty s.buffer)) (s.buffer.capacity == 0)
          (Spool.is_empty s.spool) spilled in
      rw idle refl
    where
      last_holds : (a b c : Bool) → not c ≡ false → ((a || b) || c) ≡ true
      last_holds true b c e = refl
      last_holds false true c e = refl
      last_holds false false true e = refl
      last_holds false false false e = cc

  read_round_idle : (room : ℕ) (s : Stream) → readable s ≡ false → read_round io room s ≡ ([], s)
  unfolding read_round readable
  read_round_idle room s nothing =
      let (bytes, spilled) =
        or_false (ltb 0 s.buffer.size) (not (Spool.is_empty s.spool)) nothing in
      let bare : Buffer.is_empty s.buffer ≡ true = ground (arith, bytes) in
      let none_spilled : ((s.buffer.capacity == 0) && not (Spool.is_empty s.spool)) ≡ false =
        none_of (s.buffer.capacity == 0) (not (Spool.is_empty s.spool)) spilled in
      simp (bare, none_spilled) refl
    where
      none_of : (a b : Bool) → b ≡ false → (a && b) ≡ false
      none_of true b e = e
      none_of false b e = refl

  drop_round_idle : (n : ℕ) (s : Stream) → readable s ≡ false → drop_round io n s ≡ (0, s)
  unfolding drop_round readable
  drop_round_idle n s nothing =
      let (bytes, spilled) =
        or_false (ltb 0 s.buffer.size) (not (Spool.is_empty s.spool)) nothing in
      let bare : ltb 0 (min n s.buffer.size) ≡ false = ground (arith, bytes) in
      let none_spilled : ((s.buffer.capacity == 0) && not (Spool.is_empty s.spool)) ≡ false =
        none_of (s.buffer.capacity == 0) (not (Spool.is_empty s.spool)) spilled in
      simp (bare, none_spilled) refl
    where
      none_of : (a b : Bool) → b ≡ false → (a && b) ≡ false
      none_of true b e = e
      none_of false b e = refl

  read_loop_idle :
      (fuel room : ℕ) (s : Stream) → readable s ≡ false → (read_loop io fuel room s).1 ≡ s
  unfolding read_loop
  read_loop_idle zero room s nothing = refl
  read_loop_idle (suc fuel) room s nothing =
      let round : read_round io room (fill_from_spool io s) ≡ ([], s) =
        ap (read_round io room) (fill_idle s nothing) ∙ read_round_idle room s nothing in
      elim (Bool-cases (room == 0)) [ inl full ↦ rw full refl | inr wants ↦ rw (wants, round) refl ]

  drop_loop_idle : (fuel n : ℕ) (s : Stream) → readable s ≡ false → drop_loop io fuel n s ≡ s
  unfolding drop_loop
  drop_loop_idle zero n s nothing = refl
  drop_loop_idle (suc fuel) n s nothing =
      let round : drop_round io n (fill_from_spool io s) ≡ (0, s) =
        ap (drop_round io n) (fill_idle s nothing) ∙ drop_round_idle n s nothing in
      elim (Bool-cases (n == 0)) [ inl full ↦ rw full refl | inr wants ↦ rw (wants, round) refl ]

  -- What follows when the channel becomes `s'` and is then closed if it is drained.
  drain-Says :
      (eof failed : Bool) (s s' : Stream)
      → s'.state ≡ s.state
      → (readable s ≡ false → s' ≡ s)
      → Says eof failed s.state (readable s)
      → Says eof failed (maybe_close_after_drain s').state (readable (maybe_close_after_drain s'))
  unfolding maybe_close_after_drain readable
  drain-Says eof failed s s' same idle says =
      subst (λ a. Says eof failed (closed_if (not (readable s')) a) (readable s')) (sym same)
        (drained-Says eof failed s.state (readable s) (readable s')
          (λ nothing. ap readable (idle nothing) ∙ nothing) says)

  write-Says :
      (eof failed : Bool) (bytes : Bytes) (s : Stream)
      → Says eof failed s.state (readable s)
      → Says eof failed (write io bytes s).1.state (readable (write io bytes s).1)
  unfolding write
  write-Says eof failed bytes s says = elim (Bool-cases (is_live s.state)) [
    | inr done ↦ simp done says
    | inl going ↦
        live-Says eof failed (write io bytes s).1.state (readable (write io bytes s).1)
          (ap is_live (write-state bytes s) ∙ going)
  ]

  read-Says :
      (eof failed : Bool) (room : ℕ) (s : Stream)
      → Says eof failed s.state (readable s)
      → Says eof failed (read io room s).1.state (readable (read io room s).1)
  unfolding read
  read-Says eof failed room s says = elim (Bool-cases (is_error io s.state)) [
    | inl dead ↦ simp dead says
    | inr fine ↦ simp fine (
        drain-Says eof failed s (read_loop io (suc room) room s).1
          (read_loop-state (suc room) room s) (read_loop_idle (suc room) room s) says)
  ]

  drop-Says :
      (eof failed : Bool) (n : ℕ) (s : Stream)
      → Says eof failed s.state (readable s)
      → Says eof failed (drop_front io n s).state (readable (drop_front io n s))
  unfolding drop_front
  drop-Says eof failed n s says =
      drain-Says eof failed s (drop_loop io (suc n) n s) (drop_loop-state (suc n) n s)
        (drop_loop_idle (suc n) n s) says

  fail-Says :
      (eof failed : Bool) (e : Error) (s : Stream)
      → Says eof failed s.state (readable s)
      → Says eof true (fail e s).state (readable (fail e s))
  unfolding fail
  fail-Says eof failed e s says = elim (Bool-cases (is_finished s.state)) [
    | inl done ↦ simp done (finished-Says eof failed s.state (readable s) done says)
    | inr going ↦ simp going refl
  ]

  play-Says :
      (eof failed : Bool) (calls : List Call) (s : Stream)
      → Says eof failed s.state (readable s)
      → Says
          (eof_after eof calls)
          (failed_after failed calls)
          (play io calls s).state
          (readable (play io calls s))
  unfolding play play_one eof_after failed_after close_remote close_local readable
  play-Says eof failed [] s says = says
  play-Says eof failed (writes bytes ∷ calls) s says =
      play-Says eof failed calls (write io bytes s).1 (write-Says eof failed bytes s says)
  play-Says eof failed (reads room ∷ calls) s says =
      play-Says eof failed calls (read io room s).1 (read-Says eof failed room s says)
  play-Says eof failed (drops n ∷ calls) s says =
      play-Says eof failed calls (drop_front io n s) (drop-Says eof failed n s says)
  play-Says eof failed (closes_remote ∷ calls) s says =
      play-Says true failed calls (close_remote s)
        (remote-Says eof failed s.state (readable s) says)
  play-Says eof failed (closes_local ∷ calls) s says =
      play-Says eof failed calls (close_local s) (local-Says eof failed s.state s refl says)
  play-Says eof failed (fails e ∷ calls) s says =
      play-Says eof true calls (fail e s) (fail-Says eof failed e s says)

  -- Along any calls on a new channel, whatever the calls on its spill file do: it is half closed on the
  -- remote side only after the remote end was closed; it is closed only after that and when it holds no
  -- byte; half closed on the local side it holds no byte; and it is in error only if it was told to fail.
  pub play-create :
      (capacity : ℕ) (policy : OverflowPolicy) (calls : List Call)
      → let s = play io calls (create capacity policy) in
        Says (eof_after false calls) (failed_after false calls) s.state (readable s)
  unfolding create
  play-create capacity policy calls = play-Says false false calls (create capacity policy) tt
