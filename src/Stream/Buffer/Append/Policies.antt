-- ===== src/Stream/Buffer/Append/Policies.antt =====
-- Each overflow policy's case of `append`, on data and on room.
use native.Mathlib.Decide.{dec_le}
use pipe_shell_x.Base.{
  ℕ, ◌+◌, ◌-◌, ◌^◌, ◌≤◌, ◌<◌, ◌≡◌, refl, sym, ap, ap₂, ◌∙◌, ◌++◌, Bytes, length, take, drop, arith,
  length-drop, take-all, take-append_right, drop-append_left, drop-append_right, true, false, leb,
  ltb,
}
use pipe_shell_x.Base.Words.{add64, sub64}
use pipe_shell_x.Stream.Buffer.{
  BoundedBuffer, block, drop_newest, drop_oldest, spool, available, append_by, append_up_to,
  append_drop_oldest, clear, discard_front,
}
use pipe_shell_x.Stream.Buffer.Valid.{
  IsValid, contents, length-contents, discard_front-IsValid, contents-discard_front,
}
use pipe_shell_x.Stream.Buffer.Append.Spec.{Appended}
use pipe_shell_x.Stream.Buffer.Append.Fits.{Fitted, append_up_to-Fitted}

-- `discardFront` moves the front only.
record SameShape (b c : BoundedBuffer) : Type 0 where
  capacity : c.capacity ≡ b.capacity
  dropped : c.dropped ≡ b.dropped
  policy : c.policy ≡ b.policy

discard_front-SameShape : (n : ℕ) (b : BoundedBuffer) → SameShape b (discard_front n b)
unfolding discard_front
discard_front-SameShape n b = record { capacity = refl; dropped = refl; policy = refl }

module _ (b : BoundedBuffer) (bytes : Bytes) (v : IsValid b) where
  -- What fits, put behind what is there, is the front of both.
  pub fitted_kept :
      contents b ++ take (b.capacity - b.size) bytes ≡ take b.capacity (contents b ++ bytes)
  fitted_kept =
      ap (λ k. contents b ++ take (b.capacity - k) bytes) (sym (length-contents b))
      ∙ sym (take-append_right b.capacity (contents b) bytes (omega (arith, length-contents b)))

  pub block-Appended : Appended block b bytes (append_up_to bytes b)
  block-Appended =
      let f : Fitted b bytes (append_up_to bytes b) = append_up_to-Fitted bytes b v in
      record {
        count = omega (arith, f.count, length-contents b);
        kept = f.kept ∙ fitted_kept;
        lost = omega (arith, f.same_dropped, v.counted);
        valid = f.valid;
        same_capacity = f.same_capacity;
        same_policy = f.same_policy;
      }

  pub newest-Appended :
      length bytes < 2 ^ 64 → Appended drop_newest b bytes (append_by drop_newest bytes b)
  unfolding append_by
  newest-Appended h =
      let f : Fitted b bytes (append_up_to bytes b) = append_up_to-Fitted bytes b v in
      record {
        count = refl;
        kept = f.kept ∙ fitted_kept;
        lost = omega (arith, f.count, f.same_dropped, length-contents b);
        valid = record {
          cells = f.valid.cells;
          small = f.valid.small;
          head_in = f.valid.head_in;
          size_in = f.valid.size_in;
          counted = omega arith;
        };
        same_capacity = f.same_capacity;
        same_policy = f.same_policy;
      }

  pub spool-Appended : Appended spool b bytes (append_up_to bytes b)
  spool-Appended =
      let a : Appended block b bytes (append_up_to bytes b) = block-Appended in
      record {
        count = a.count;
        kept = a.kept;
        lost = a.lost;
        valid = a.valid;
        same_capacity = a.same_capacity;
        same_policy = a.same_policy;
      }

  -- At least as many bytes as the ring holds: only the last `capacity` of them stay.
  oldest_flood :
      length bytes < 2 ^ 64
      → b.capacity ≤ length bytes
      → Appended drop_oldest b bytes (append_drop_oldest bytes b)
  unfolding append_drop_oldest clear
  oldest_flood h full =
      let test : leb b.capacity (length bytes) ≡ true = ground arith in
      let cut : sub64 (length bytes) b.capacity ≡ length bytes - b.capacity = omega arith in
      let lost = add64 b.size (length bytes - b.capacity) in
      let tail = drop (length bytes - b.capacity) bytes in
      let tail_length : length tail ≡ b.capacity =
        omega (arith, length-drop (length bytes - b.capacity) bytes) in
      let emptied : BoundedBuffer = record b {
        head = 0;
        size = 0;
        dropped = add64 b.dropped lost;
      } in
      let emptied_valid : IsValid emptied = ground arith in
      let f : Fitted emptied tail (append_up_to tail emptied) =
        append_up_to-Fitted tail emptied emptied_valid in
      rw (test, cut)
        (record {
          count = refl;
          kept =
              f.kept
              ∙ take-all (b.capacity - 0) tail (omega (arith, tail_length))
              ∙ ap (λ k. drop k bytes) (omega (arith, length-contents b))
              ∙ sym (
                  drop-append_right (length (contents b) + length bytes - b.capacity) (contents b)
                    bytes (omega (arith, length-contents b)));
          lost = omega (arith, f.same_dropped, length-contents b);
          valid = f.valid;
          same_capacity = f.same_capacity;
          same_policy = f.same_policy;
        })

  -- Fewer bytes than the ring holds, and not enough room: the oldest make place.
  oldest_evict :
      length bytes < b.capacity
      → b.capacity - b.size < length bytes
      → Appended drop_oldest b bytes (append_drop_oldest bytes b)
  unfolding append_drop_oldest
  oldest_evict less tight =
      let small : leb b.capacity (length bytes) ≡ false = ground arith in
      let room : available b ≡ b.capacity - b.size = omega arith in
      let test : ltb (b.capacity - b.size) (length bytes) ≡ true = ground arith in
      let cut : sub64 (length bytes) (b.capacity - b.size) ≡ length bytes - (b.capacity - b.size) =
        omega arith in
      let evict = length bytes - (b.capacity - b.size) in
      let marked : BoundedBuffer = record b { dropped = add64 b.dropped evict } in
      let marked_valid : IsValid marked = ground arith in
      let c : BoundedBuffer = discard_front evict marked in
      let c_valid : IsValid c = discard_front-IsValid evict marked marked_valid in
      let f : Fitted c bytes (append_up_to bytes c) = append_up_to-Fitted bytes c c_valid in
      let front : contents c ≡ drop evict (contents b) =
        contents-discard_front evict marked marked_valid in
      let same : SameShape marked c = discard_front-SameShape evict marked in
      let size : c.size ≡ b.size - evict =
        sym (length-contents c)
        ∙ ap length front
        ∙ length-drop evict (contents b)
        ∙ ap (λ k. k - evict) (length-contents b) in
      rw (small, room, test, cut)
        (record {
          count = refl;
          kept =
              f.kept
              ∙ ap₂ ◌++◌ front
                  (take-all (c.capacity - c.size) bytes (omega (arith, same.capacity, size)))
              ∙ sym (drop-append_left evict (contents b) bytes (omega (arith, length-contents b)))
              ∙ ap (λ k. drop k (contents b ++ bytes)) (omega (arith, length-contents b));
          lost = omega (arith, f.same_dropped, same.dropped, length-contents b);
          valid = f.valid;
          same_capacity = f.same_capacity ∙ same.capacity;
          same_policy = f.same_policy ∙ same.policy;
        })

  oldest_fits :
      length bytes < b.capacity
      → length bytes ≤ b.capacity - b.size
      → Appended drop_oldest b bytes (append_drop_oldest bytes b)
  unfolding append_drop_oldest
  oldest_fits less fits =
      let small : leb b.capacity (length bytes) ≡ false = ground arith in
      let room : available b ≡ b.capacity - b.size = omega arith in
      let test : ltb (b.capacity - b.size) (length bytes) ≡ false = ground arith in
      let f : Fitted b bytes (append_up_to bytes b) = append_up_to-Fitted bytes b v in
      rw (small, room, test)
        (record {
          count = refl;
          kept =
              f.kept
              ∙ ap (λ w. contents b ++ w) (take-all (b.capacity - b.size) bytes fits)
              ∙ ap (λ k. drop k (contents b ++ bytes)) {x = 0} (omega (arith, length-contents b));
          lost = omega (arith, f.same_dropped, v.counted, length-contents b);
          valid = f.valid;
          same_capacity = f.same_capacity;
          same_policy = f.same_policy;
        })

  pub oldest-Appended :
      length bytes < 2 ^ 64 → Appended drop_oldest b bytes (append_drop_oldest bytes b)
  oldest-Appended h = elim (dec_le b.capacity (length bytes)) [
    | yes full ↦ oldest_flood h full
    | no less ↦ elim (dec_le (length bytes) (b.capacity - b.size)) [
      | yes fits ↦ oldest_fits (omega arith) fits
      | no tight ↦ oldest_evict (omega arith) (omega arith)
    ]
  ]
