-- ===== src/Stream/Channel/Ends.antt =====
-- How a read of a channel ends.
use pipe_shell_x.Base.{
  ℕ, zero, suc, ◌-◌, ◌≡◌, ◌≤◌, ◌<◌, ◌⊎◌, refl, ap, ◌∙◌, inl, inr, [], Bool, true, false, not, ◌&&◌,
  length, min, ◌==◌, arith, Bool-cases, length-append, length-take,
}
use pipe_shell_x.Stream.Buffer
use pipe_shell_x.Stream.Buffer.{BoundedBuffer}
use pipe_shell_x.Stream.Buffer.Valid.{contents, length-contents}
use pipe_shell_x.Stream.Buffer.Consume.{consume-Consumed}
use pipe_shell_x.Stream.Spool
use pipe_shell_x.Stream.Spool.{Stdio, SpoolBuffer, remaining, is_empty}
use pipe_shell_x.Stream.Spool.Laws.{Keeps, spool_read-Drained}
use pipe_shell_x.Stream.Spool.Dry.{IsDry, exhausted, spool_read-IsDry}
use pipe_shell_x.Stream.Channel.{
  Stream, refill, fill_from_spool, read_spool, read_buffer, read_round, read_loop, read, is_error,
  maybe_close_after_drain, chunk_size, reset_if_empty,
}
use pipe_shell_x.Stream.Channel.Reads.{
  IsValid, Took, fill-Took, read_round-Took, after-Took, append_to_empty,
}

-- Nothing is left to give: the buffer is empty, and the spill file gives no byte.
pub record IsSpent (io : Stdio) (s : Stream) : Type 0 where
  pub bare : Buffer.is_empty s.buffer ≡ true
  pub dry : IsDry io s.spool

second_fails : (a b : Bool) → (a && not b) ≡ true → b ≡ false
second_fails true true e = cc
second_fails true false e = refl
second_fails false b e = cc

second_holds : (a b : Bool) → a ≡ true → (a && not b) ≡ false → b ≡ true
second_holds true true e e' = refl
second_holds true false e e' = cc
second_holds false b e e' = cc

module _ (io : Stdio) (keeps : Keeps io) where
  round_within : (room : ℕ) (s : Stream) → IsValid s → length (read_round io room s).0 ≤ room
  unfolding read_round read_buffer read_spool
  round_within room s v = elim (Bool-cases (Buffer.is_empty s.buffer)) [
    | inr holds ↦
        let c = consume-Consumed room s.buffer v.buffer in
        simp holds (omega (arith, ap length c.bytes, length-take room (contents s.buffer)))
    | inl e ↦ elim (Bool-cases ((s.buffer.capacity == 0) && not (Spool.is_empty s.spool))) [
      | inl direct ↦ simp (e, direct) (spool_read-Drained io keeps room s.spool v.spool).within
      | inr idle ↦ simp (e, idle) (omega arith)
    ]
  ]

  reset-IsDry : (b : SpoolBuffer) → IsDry io b → IsDry io (reset_if_empty b)
  unfolding reset_if_empty Spool.reset is_empty remaining
  reset-IsDry b dry = elim (Bool-cases (is_empty b)) [
    | inl e ↦ rw e (exhausted refl)
    | inr e ↦ rw e dry
  ]

  refill-IsSpent :
      (s : Stream)
      → IsValid s
      → Buffer.is_empty s.buffer ≡ true
      → 0 < s.buffer.capacity
      → is_empty s.spool ≡ false
      → Buffer.is_empty (refill io s).buffer ≡ true
      → IsSpent io (refill io s)
  unfolding refill
  refill-IsSpent s v e roomy holds after =
      let room = min chunk_size s.buffer.capacity in
      let d = spool_read-Drained io keeps room s.spool v.spool in
      let (chunk, file) = Spool.read io room s.spool in
      elim (Bool-cases (length chunk == 0)) [
        | inl nothing ↦ simp nothing (record {
          bare = e;
          dry =
              spool_read-IsDry io keeps room s.spool v.spool (omega (arith, roomy)) holds
                (ground (arith, nothing));
        })
        | inr moved ↦ absurd (
            let filled : Buffer.is_empty (Buffer.append chunk s.buffer).1 ≡ true =
              simp moved at after in
            let (kept, _, _) =
              append_to_empty s.buffer chunk v.buffer v.spools e (omega (arith, d.within)) in
            let size = length-contents (Buffer.append chunk s.buffer).1 in
            ground (arith, filled, ap length kept, size, moved))
      ]

  fill_bare :
      (s : Stream)
      → IsValid s
      → Buffer.is_empty (fill_from_spool io s).buffer ≡ true
      → IsSpent io (fill_from_spool io s) ⊎ ((fill_from_spool io s).buffer.capacity ≡ 0)
  unfolding fill_from_spool
  fill_bare s v after = elim (Bool-cases (Buffer.is_empty s.buffer)) [
    | inr holds ↦ absurd (let never : false ≡ true = simp holds at after in cc)
    | inl e ↦ elim (Bool-cases (s.buffer.capacity == 0)) [
      | inl zero_cap ↦ simp (e, zero_cap) (inr (ground (arith, zero_cap)))
      | inr roomy ↦ elim (Bool-cases (is_empty s.spool)) [
        | inl gone ↦ simp (e, roomy, gone) (inl (record { bare = e; dry = exhausted gone }))
        | inr spilled ↦
            let refilled : Buffer.is_empty (refill io s).buffer ≡ true =
              simp (e, roomy, spilled) at after in
            simp (e, roomy, spilled)
              (inl (refill-IsSpent s v e (ground (arith, roomy)) spilled refilled))
      ]
    ]
  ]

  read_spool-IsSpent :
      (room : ℕ) (s : Stream)
      → IsValid s
      → 0 < room
      → is_empty s.spool ≡ false
      → Buffer.is_empty s.buffer ≡ true
      → length (read_spool io room s).0 ≡ 0
      → IsSpent io (read_spool io room s).1
  unfolding read_spool
  read_spool-IsSpent room s v wants holds e nothing = record {
    bare = e;
    dry =
        reset-IsDry (Spool.read io room s.spool).1
          (spool_read-IsDry io keeps room s.spool v.spool wants holds nothing);
  }

  -- A round that still has room and moves nothing leaves the channel spent.
  read_round-IsSpent :
      (room : ℕ) (s : Stream)
      → IsValid s
      → 0 < room
      → (Buffer.is_empty s.buffer ≡ true → IsSpent io s ⊎ (s.buffer.capacity ≡ 0))
      → length (read_round io room s).0 ≡ 0
      → IsSpent io (read_round io room s).1
  unfolding read_round read_buffer
  read_round-IsSpent room s v wants filled nothing = elim (Bool-cases (Buffer.is_empty s.buffer)) [
    | inr holds ↦ absurd (
        let c = consume-Consumed room s.buffer v.buffer in
        let none_out : length (Buffer.consume room s.buffer).0 ≡ 0 = simp holds at nothing in
        let size = length-contents s.buffer in
        ground (
          arith,
          none_out,
          ap length c.bytes,
          length-take room (contents s.buffer),
          size,
          holds,
          wants,
        ))
    | inl e ↦ elim (Bool-cases ((s.buffer.capacity == 0) && not (is_empty s.spool))) [
      | inl direct ↦
          let spilled : is_empty s.spool ≡ false = second_fails _ _ direct in
          let none_out : length (read_spool io room s).0 ≡ 0 = simp (e, direct) at nothing in
          simp (e, direct) (read_spool-IsSpent room s v wants spilled e none_out)
      | inr idle ↦
          simp (e, idle)
            (elim (filled e) [
              | inl spent ↦ spent
              | inr zero_cap ↦
                  let here : (s.buffer.capacity == 0) ≡ true = ground (arith, zero_cap) in
                  record { bare = e; dry = exhausted (second_holds _ _ here idle) }
            ])
    ]
  ]

  read_loop-ends :
      (fuel room : ℕ) (s : Stream)
      → IsValid s
      → room < fuel
      → (length (read_loop io fuel room s).0 ≡ room) ⊎ IsSpent io (read_loop io fuel room s).1
  unfolding read_loop
  read_loop-ends zero room s v more = absurd (omega arith)
  read_loop-ends (suc fuel) room s v more =
      let f = fill-Took io keeps s v in
      let filled = fill_from_spool io s in
      let r = read_round-Took io keeps room filled f.valid in
      let (out, s') = read_round io room filled in
      let small : length out ≤ room = round_within room filled f.valid in
      let first : Took s (out, s') = after-Took io keeps s filled (out, s') [] f r in
      elim (Bool-cases (room == 0)) [
        | inl full ↦ rw full (inl (ground arith))
        | inr wants ↦ elim (Bool-cases (length out == 0)) [
          | inl stuck ↦
              rw (wants, stuck)
                (inr (
                  read_round-IsSpent room filled f.valid (ground (arith, wants)) (fill_bare s v)
                    (ground (arith, stuck))))
          | inr moved ↦
              rw (wants, moved)
                (elim (read_loop-ends fuel (room - length out) s' first.valid (ground arith)) [
                  | inl filled_up ↦ inl (length-append out _ ∙ omega (arith, filled_up, small))
                  | inr spent ↦ inr spent
                ])
        ]
      ]

  -- Where a call on the spill file that fails loses none of its bytes, a read of a spooling channel that has
  -- not failed fills its span, or leaves the channel with an empty buffer and a spill file that holds no
  -- byte, has failed, or failed or moved nothing in the last call on it.
  pub read-ends :
      (room : ℕ) (s : Stream)
      → IsValid s
      → is_error io s.state ≡ false
      → let (out, s') = read io room s in (length out ≡ room) ⊎ IsSpent io s'
  unfolding read maybe_close_after_drain
  read-ends room s v fine = simp fine (elim (read_loop-ends (suc room) room s v (omega arith)) [
    | inl filled_up ↦ inl filled_up
    | inr spent ↦ inr (record { bare = spent.bare; dry = spent.dry })
  ])
