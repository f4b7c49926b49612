-- ===== src/Stream/Channel/Reads.antt =====
-- A channel is a queue through its buffer and its spill file.
use pipe_shell_x.Base.{
  ℕ, zero, suc, ◌-◌, ◌≡◌, ◌≤◌, refl, sym, ap, ap₂, subst, ◌∙◌, inl, inr, [], ◌++◌, Bool, true,
  false, Bytes, length, take, drop, min, ◌==◌, arith, not, ◌||◌, ◌&&◌, Bool-cases, append_assoc,
  take-all, nil_of_length, take-append-drop,
}
use pipe_shell_x.Stream.Buffer
use pipe_shell_x.Stream.Buffer.{BoundedBuffer, OverflowPolicy}
use pipe_shell_x.Stream.Buffer.Valid
use pipe_shell_x.Stream.Buffer.Valid.{contents, length-contents}
use pipe_shell_x.Stream.Buffer.Append.Spec.{kept_by}
use pipe_shell_x.Stream.Buffer.Append.Refines.{append-Appended}
use pipe_shell_x.Stream.Buffer.Consume.{consume-Consumed}
use pipe_shell_x.Stream.Spool
use pipe_shell_x.Stream.Spool.{Stdio, SpoolBuffer}
use pipe_shell_x.Stream.Spool.Laws
use pipe_shell_x.Stream.Spool.Laws.{
  Keeps, unread, length-unread, Spooled, Drained, spool_append-Spooled, spool_read-Drained,
}
use pipe_shell_x.Stream.Channel.{
  Stream, refill, fill_from_spool, read_spool, read_buffer, read_round, read_loop, read, is_error,
  maybe_close_after_drain, chunk_size, reset_if_empty,
}

-- The bytes that a channel holds, oldest first.
abbrev pub pending : Stream → Bytes
pending s = contents s.buffer ++ unread s.spool

pub record IsValid (s : Stream) : Type 0 where
  pub buffer : Valid.IsValid s.buffer
  pub spool : Laws.IsValid s.spool
  pub spools : s.buffer.policy ≡ Buffer.spool

-- A spill file that holds nothing adds nothing.
pub unread-empty : (b : SpoolBuffer) → Laws.IsValid b → Spool.is_empty b ≡ true → unread b ≡ []
unfolding Spool.is_empty Spool.remaining
unread-empty b v e =
    nil_of_length (unread b) (ground (arith, length-unread b v, v.offset_in, v.word))

reset-IsValid : (b : SpoolBuffer) → Laws.IsValid (Spool.reset b)
unfolding Spool.reset
reset-IsValid b = record {
  offset_in = omega arith;
  size_in = omega arith;
  exact = λ _. refl;
  word = omega arith;
}

reset-unread : (b : SpoolBuffer) → unread (Spool.reset b) ≡ []
unfolding Spool.reset
reset-unread b = refl

reset_if_empty-lem :
    (b : SpoolBuffer)
    → Laws.IsValid b
    → (unread (reset_if_empty b) ≡ unread b) × Laws.IsValid (reset_if_empty b)
unfolding reset_if_empty
reset_if_empty-lem b v = elim (Bool-cases (Spool.is_empty b)) [
  | inl e ↦ rw e (reset-unread b ∙ sym (unread-empty b v e), reset-IsValid b)
  | inr e ↦ rw e (refl, v)
]

-- What a step that takes `out` from the front leaves.
pub record Took (s : Stream) (r : Bytes × Stream) : Type 0 where
  pub queue : r.0 ++ pending r.1 ≡ pending s
  pub valid : IsValid r.1
  pub same_state : r.1.state ≡ s.state

empty_contents : (b : BoundedBuffer) → Buffer.is_empty b ≡ true → contents b ≡ []
empty_contents b e = nil_of_length (contents b) (ground (arith, length-contents b))

was_empty : (a b c : Bool) → ((not a || b) || c) ≡ false → a ≡ true
was_empty true b c e = refl
was_empty false b c e = cc

-- A spooling buffer that holds nothing takes a chunk of its size whole.
pub append_to_empty :
    (b : BoundedBuffer) (chunk : Bytes)
    → Valid.IsValid b
    → b.policy ≡ Buffer.spool
    → Buffer.is_empty b ≡ true
    → length chunk ≤ b.capacity
    → (contents (Buffer.append chunk b).1 ≡ chunk)
      × Valid.IsValid (Buffer.append chunk b).1
      × ((Buffer.append chunk b).1.policy ≡ Buffer.spool)
append_to_empty b chunk v p e fits =
    let a = append-Appended b chunk v (omega (arith, v.small, fits)) in
    (
      a.kept
          ∙ ap (λ q. kept_by q b.capacity (contents b) chunk) p
          ∙ ap (λ w. take b.capacity (w ++ chunk)) (empty_contents b e)
          ∙ take-all b.capacity chunk fits,
      a.valid,
      a.same_policy ∙ p,
    )

module _ (io : Stdio) (keeps : Keeps io) where
  refill-Took :
      (s : Stream) → IsValid s → Buffer.is_empty s.buffer ≡ true → Took s ([], refill io s)
  unfolding refill
  refill-Took s v e =
      let room = min chunk_size s.buffer.capacity in
      let d = spool_read-Drained io keeps room s.spool v.spool in
      let (chunk, file) = Spool.read io room s.spool in
      let (kept, valid, policy) =
        append_to_empty s.buffer chunk v.buffer v.spools e (omega (arith, d.within)) in
      let (left, file_valid) = reset_if_empty-lem file d.valid in
      elim (Bool-cases (length chunk == 0)) [
        | inl none_read ↦ rw none_read (record {
          queue =
              ap (λ w. contents s.buffer ++ w)
                (sym (ap (λ w. w ++ unread file) (nil_of_length chunk (ground arith))) ∙ d.queue);
          valid = record { buffer = v.buffer; spool = d.valid; spools = v.spools };
          same_state = refl;
        })
        | inr some_read ↦ rw some_read (record {
          queue =
              ap₂ (λ w u. w ++ u) kept left
              ∙ d.queue
              ∙ sym (ap (λ w. w ++ unread s.spool) (empty_contents s.buffer e));
          valid = record { buffer = valid; spool = file_valid; spools = policy };
          same_state = refl;
        })
      ]

  pub fill-Took : (s : Stream) → IsValid s → Took s ([], fill_from_spool io s)
  unfolding fill_from_spool
  fill-Took s v =
      elim (Bool-cases
        (not (Buffer.is_empty s.buffer) || (s.buffer.capacity == 0) || Spool.is_empty s.spool)) [
          | inl idle ↦ simp idle (record { queue = refl; valid = v; same_state = refl })
          | inr goes ↦ simp goes (refill-Took s v (was_empty (Buffer.is_empty s.buffer) _ _ goes))
        ]

  read_buffer-Took : (room : ℕ) (s : Stream) → IsValid s → Took s (read_buffer io room s)
  unfolding read_buffer
  read_buffer-Took room s v =
      let c = consume-Consumed room s.buffer v.buffer in
      record {
        queue =
            ap₂ (λ w u. w ++ (u ++ unread s.spool)) c.bytes c.rest
            ∙ sym (
                append_assoc (take room (contents s.buffer)) (drop room (contents s.buffer))
                  (unread s.spool))
            ∙ ap (λ w. w ++ unread s.spool) (take-append-drop room (contents s.buffer));
        valid = record { buffer = c.valid; spool = v.spool; spools = c.same_policy ∙ v.spools };
        same_state = refl;
      }

  read_spool-Took :
      (room : ℕ) (s : Stream)
      → IsValid s
      → Buffer.is_empty s.buffer ≡ true
      → Took s (read_spool io room s)
  unfolding read_spool
  read_spool-Took room s v e =
      let d = spool_read-Drained io keeps room s.spool v.spool in
      let (out, file) = Spool.read io room s.spool in
      let (left, file_valid) = reset_if_empty-lem file d.valid in
      let bare : contents s.buffer ≡ [] = empty_contents s.buffer e in
      record {
        queue =
            ap₂ (λ w u. out ++ (w ++ u)) bare left
            ∙ d.queue
            ∙ sym (ap (λ w. w ++ unread s.spool) bare);
        valid = record { buffer = v.buffer; spool = file_valid; spools = v.spools };
        same_state = refl;
      }

  pub read_round-Took : (room : ℕ) (s : Stream) → IsValid s → Took s (read_round io room s)
  unfolding read_round
  read_round-Took room s v = elim (Bool-cases (Buffer.is_empty s.buffer)) [
    | inr holds ↦ simp holds (read_buffer-Took room s v)
    | inl e ↦ elim (Bool-cases ((s.buffer.capacity == 0) && not (Spool.is_empty s.spool))) [
      | inl direct ↦ simp (e, direct) (read_spool-Took room s v e)
      | inr idle ↦ simp (e, idle) (record { queue = refl; valid = v; same_state = refl })
    ]
  ]

  pub after-Took :
      (s s' : Stream) (r : Bytes × Stream) (front : Bytes)
      → Took s (front, s')
      → Took s' r
      → Took s (front ++ r.0, r.1)
  after-Took s s' r front a b = record {
    queue = append_assoc front r.0 (pending r.1) ∙ ap (λ w. front ++ w) b.queue ∙ a.queue;
    valid = b.valid;
    same_state = b.same_state ∙ a.same_state;
  }

  read_loop-Took : (fuel room : ℕ) (s : Stream) → IsValid s → Took s (read_loop io fuel room s)
  unfolding read_loop
  read_loop-Took zero room s v = record { queue = refl; valid = v; same_state = refl }
  read_loop-Took (suc fuel) room s v =
      let f = fill-Took s v in
      let filled = fill_from_spool io s in
      let r = read_round-Took room filled f.valid in
      let (out, s') = read_round io room filled in
      let first : Took s (out, s') = after-Took s filled (out, s') [] f r in
      let more = read_loop-Took fuel (room - length out) s' first.valid in
      elim (Bool-cases (room == 0)) [
        | inl full ↦ rw full (record { queue = refl; valid = v; same_state = refl })
        | inr wants ↦ elim (Bool-cases (length out == 0)) [
          | inl stuck ↦
              rw (wants, stuck)
                (subst (λ w. Took s (w, s')) (nil_of_length out (ground arith)) first)
          | inr moved ↦
              rw (wants, moved)
                (after-Took s s' (read_loop io fuel (room - length out) s') out first more)
        ]
      ]

  -- Where a call on the spill file that fails loses none of its bytes, what `read` gives out is the front of
  -- what a spooling channel holds, through buffer and spill file, and all the rest stays in order.
  pub read-pending :
      (room : ℕ) (s : Stream)
      → IsValid s
      → let (out, s') = read io room s in (out ++ pending s' ≡ pending s) × IsValid s'
  unfolding read maybe_close_after_drain
  read-pending room s v =
      let t = read_loop-Took (suc room) room s v in
      elim (Bool-cases (is_error io s.state)) [
        | inl dead ↦ simp dead (refl, v)
        | inr fine ↦ simp fine (
          t.queue,
          record { buffer = t.valid.buffer; spool = t.valid.spool; spools = t.valid.spools },
        )
      ]
