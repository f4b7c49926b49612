-- ===== src/Stream/Buffer/Consume.antt =====
-- `BoundedBuffer::consume`, `peek` and `drop` against the queue of the buffered bytes.
use native.Mathlib.Decide.{dec_lt}
use native.Mathlib.Nat.{mod-add-mod, mod-eq_of_lt, add-zero}
use pipe_shell_x.Base.{
  ℕ, zero, suc, ◌+◌, ◌-◌, ◌%◌, ◌^◌, ◌≤◌, ◌<◌, ◌≡◌, inl, refl, sym, ap, ap₂, ◌∙◌, [], ◌++◌, Bytes,
  min, length, take, drop, arith, append-nil, append_assoc, take-nil, drop-nil, ◌==◌, true, false,
  take-append_length, take-min,
}
use pipe_shell_x.Base.Words.{add64, sub64}
use pipe_shell_x.Stream.Window.{window, window-slice, window-add, length-window}
use pipe_shell_x.Stream.Buffer.{BoundedBuffer, consume, consume_loop, drop_front}
use pipe_shell_x.Stream.Buffer.Valid.{
  IsValid, contents, length-contents, head-lt, contents-discard_front, drop-window, split_at,
}

pass_run : (h run left k : ℕ) → run ≤ left → ((h + run) % k + (left - run)) % k ≡ (h + left) % k
pass_run h run left k le = rw mod-add-mod (ap (λ m. m % k) (omega arith))

-- The head moved on by `k` cells.
abbrev turned : ℕ → BoundedBuffer → BoundedBuffer
turned k b = record b { head = (b.head + k) % b.capacity }

nothing_left :
    (left : ℕ) (out : Bytes) (b : BoundedBuffer)
    → left ≡ 0
    → b.head < b.capacity
    → ◌≡◌ {A = Bytes × BoundedBuffer}
        (out, b)
        (out ++ window b.storage b.capacity b.head left, turned left b)
nothing_left left out b e inside =
    let still : (b.head + left) % b.capacity ≡ b.head =
      ap (λ k. (b.head + k) % b.capacity) e ∙ rw add-zero (mod-eq_of_lt inside) in
    rw (still, e, append-nil) refl

-- With a round of fuel for each byte, the loop copies the next `left` bytes round the ring.
consume_loop_lem :
    (fuel left : ℕ) (out : Bytes) (b : BoundedBuffer)
    → left ≤ fuel
    → b.head < b.capacity
    → b.capacity < 2 ^ 63
    → length b.storage ≡ b.capacity
    → left ≤ b.capacity
    → consume_loop fuel left out b ≡ (out ++ window b.storage b.capacity b.head left, turned left b)
unfolding consume_loop
consume_loop_lem zero left out b enough inside small cells fits =
    nothing_left left out b (omega arith) inside
consume_loop_lem (suc fuel) left out b enough inside small cells fits = elim (dec_lt 0 left) [
  | yes pos ↦
      let run = min left (b.capacity - b.head) in
      let test : (left == 0) ≡ false = ground arith in
      let span : min left (sub64 b.capacity b.head) ≡ run = omega arith in
      let rest : sub64 left run ≡ left - run = omega arith in
      let step : add64 b.head run ≡ b.head + run = omega arith in
      let copied : take run (drop b.head b.storage) ≡ window b.storage b.capacity b.head run =
        sym (window-slice b.storage b.capacity run b.head (omega arith) (omega arith)) in
      let joined : window b.storage b.capacity b.head run
            ++ window b.storage b.capacity ((b.head + run) % b.capacity) (left - run)
          ≡ window b.storage b.capacity b.head left =
        sym (window-add b.storage b.capacity b.head run (left - run) inside)
        ∙ ap (window b.storage b.capacity b.head) (sym (split_at run left (omega arith))) in
      rw (test, span, rest, step, copied)
        (consume_loop_lem fuel (left - run) (out ++ window b.storage b.capacity b.head run)
            (turned run b) (omega arith) (omega arith) small cells (omega arith)
          ∙ ap₂ (λ w k. (w, record b { head = k }))
              (append_assoc out _ _ ∙ ap (λ w. out ++ w) joined)
              (pass_run b.head run left b.capacity (omega arith)))
  | no done ↦
      let test : (left == 0) ≡ true = ground arith in
      rw test (nothing_left left out b (omega arith) inside)
]

-- What a read of at most `room` bytes gives and leaves.
pub record Consumed (room : ℕ) (b : BoundedBuffer) (out : Bytes × BoundedBuffer) : Type 0 where
  pub bytes : out.0 ≡ take room (contents b)
  pub rest : contents out.1 ≡ drop room (contents b)
  pub valid : IsValid out.1
  pub same_dropped : out.1.dropped ≡ b.dropped
  pub same_capacity : out.1.capacity ≡ b.capacity
  pub same_policy : out.1.policy ≡ b.policy

module _ (room : ℕ) (b : BoundedBuffer) (v : IsValid b) where
  consume_empty : b.size ≡ 0 → Consumed room b (consume room b)
  unfolding consume consume_loop
  consume_empty e =
      let n : min room b.size ≡ 0 = omega arith in
      let still : sub64 b.size 0 ≡ b.size = omega arith in
      let bare : contents b ≡ [] = ap (window b.storage b.capacity b.head) e in
      rw (n, still)
        (record {
          bytes = sym (ap (take room) bare ∙ take-nil room);
          rest = bare ∙ sym (ap (drop room) bare ∙ drop-nil room);
          valid = v;
          same_dropped = refl;
          same_capacity = refl;
          same_policy = refl;
        })

  consume_some : 0 < b.size → Consumed room b (consume room b)
  unfolding consume
  consume_some pos =
      let n = min room b.size in
      let inside : b.head < b.capacity = head-lt b v pos in
      let left : sub64 b.size n ≡ b.size - n = omega arith in
      let front : window b.storage b.capacity b.head n ≡ take room (contents b) =
        sym (
          take-append_length n (window b.storage b.capacity b.head n) _
            (length-window b.storage b.capacity b.head n))
        ∙ ap (take n) (sym (window-add b.storage b.capacity b.head n (b.size - n) inside))
        ∙ ap (λ k. take n (window b.storage b.capacity b.head k))
            (sym (split_at n b.size (omega arith)))
        ∙ ap (λ k. take k (contents b)) (omega (arith, length-contents b))
        ∙ take-min room (contents b) in
      rw (consume_loop_lem n n [] b (omega arith) inside v.small v.cells (omega arith), left)
        (record {
          bytes = front;
          rest = sym (drop-window b.storage b.capacity b.head b.size room inside);
          valid = record {
            cells = v.cells;
            small = v.small;
            head_in = inl (omega arith);
            size_in = omega arith;
            counted = v.counted;
          };
          same_dropped = refl;
          same_capacity = refl;
          same_policy = refl;
        })

  -- Over a valid buffer `consume` copies out the oldest bytes in order, as many as there are and as the
  -- span has room for, leaves the rest in order, and keeps all else; the loop ends by its own test.
  pub consume-Consumed : Consumed room b (consume room b)
  consume-Consumed = elim (dec_lt 0 b.size) [
    | yes pos ↦ consume_some pos
    | no bare ↦ consume_empty (omega arith)
  ]

  -- `drop` takes away what `consume` would copy out.
  pub contents-drop_front : contents (drop_front room b) ≡ contents (consume room b).1
  unfolding drop_front
  contents-drop_front = contents-discard_front room b v ∙ sym consume-Consumed.rest
