-- ===== src/Stream/Buffer/Append/Refines.antt =====
-- `append` on every policy and every input is the bounded queue's.
use pipe_shell_x.Base.{
  nil_of_length, ℕ, ◌+◌, ◌-◌, ◌%◌, ◌^◌, ◌<◌, ◌≡◌, ◌⊎◌, inl, inr, refl, sym, ap, ◌∙◌, [], ◌++◌,
  Bytes, length, take, drop, arith, drop-all, append-nil, length-append, if◌then◌else◌, Bool-cases,
  ◌==◌, ◌||◌, take-nil,
}
use pipe_shell_x.Base.Words.{add64}
use pipe_shell_x.Stream.Buffer.{
  BoundedBuffer, OverflowPolicy, block, drop_newest, drop_oldest, spool, append, append_by,
  drops_on_overflow,
}
use pipe_shell_x.Stream.Buffer.Valid.{IsValid, contents, length-contents}
use pipe_shell_x.Stream.Buffer.Append.Spec.{Appended, kept_by, accepted_by, lost_by}
use pipe_shell_x.Stream.Buffer.Append.Policies.{
  block-Appended, spool-Appended, newest-Appended, oldest-Appended, fitted_kept,
}

-- Policy `p` asks for nothing: there is no cell, or no byte.
abbrev IsIdle : BoundedBuffer → Bytes → Type 0
IsIdle b bytes = (b.capacity ≡ 0) ⊎ (length bytes ≡ 0)

module _ (b : BoundedBuffer) (bytes : Bytes) (v : IsValid b) where
  take_nothing : (k : ℕ) → (k ≡ 0) ⊎ (length bytes ≡ 0) → take k bytes ≡ []
  take_nothing k (inl e) = ap (λ n. take n bytes) e
  take_nothing k (inr e) = ap (take k) (nil_of_length bytes e) ∙ take-nil k

  idle_front : IsIdle b bytes → contents b ≡ take b.capacity (contents b ++ bytes)
  idle_front h =
      sym (append-nil (contents b))
      ∙ ap (λ w. contents b ++ w) (sym (take_nothing (b.capacity - b.size) (omega arith)))
      ∙ fitted_kept b bytes v

  idle_back :
      IsIdle b bytes
      → contents b ≡ drop (length (contents b) + length bytes - b.capacity) (contents b ++ bytes)
  idle_back (inl e) =
      nil_of_length (contents b) (omega (arith, length-contents b))
      ∙ sym (
          drop-all (length (contents b) + length bytes - b.capacity) (contents b ++ bytes)
            (omega (arith, length-append (contents b) bytes)))
  idle_back (inr e) =
      sym (append-nil (contents b))
      ∙ ap (λ w. contents b ++ w) (sym (nil_of_length bytes e))
      ∙ ap (λ k. drop k (contents b ++ bytes)) {x = 0} (omega (arith, length-contents b))

  idle_out : OverflowPolicy → ℕ × BoundedBuffer
  idle_out p =
      if drops_on_overflow p
      then (length bytes, record b { dropped = add64 b.dropped (length bytes) })
      else (0, b)

  idle-lossless :
      (p : OverflowPolicy)
      → IsIdle b bytes
      → (0 ≡ accepted_by p b.capacity (contents b) bytes)
      → (contents b ≡ kept_by p b.capacity (contents b) bytes)
      → (0 ≡ lost_by p b.capacity (contents b) bytes)
      → Appended p b bytes (0, b)
  idle-lossless p h count kept lost = record {
    count = count;
    kept = kept;
    lost = omega (arith, v.counted, lost);
    valid = v;
    same_capacity = refl;
    same_policy = refl;
  }

  idle-lossy :
      (p : OverflowPolicy)
      → length bytes < 2 ^ 64
      → (length bytes ≡ accepted_by p b.capacity (contents b) bytes)
      → (contents b ≡ kept_by p b.capacity (contents b) bytes)
      → (length bytes ≡ lost_by p b.capacity (contents b) bytes)
      → Appended p b bytes (length bytes, record b { dropped = add64 b.dropped (length bytes) })
  idle-lossy p h count kept lost = record {
    count = count;
    kept = kept;
    lost = ap (λ k. (b.dropped + k) % 2 ^ 64) lost;
    valid = record {
      cells = v.cells;
      small = v.small;
      head_in = v.head_in;
      size_in = v.size_in;
      counted = omega arith;
    };
    same_capacity = refl;
    same_policy = refl;
  }

  idle-Appended :
      (p : OverflowPolicy)
      → IsIdle b bytes
      → length bytes < 2 ^ 64
      → Appended p b bytes (idle_out p)
  unfolding idle_out drops_on_overflow
  idle-Appended block h lt =
      idle-lossless block h (omega (arith, length-contents b)) (idle_front h) refl
  idle-Appended spool h lt =
      idle-lossless spool h (omega (arith, length-contents b)) (idle_front h) refl
  idle-Appended drop_newest h lt =
      idle-lossy drop_newest lt refl (idle_front h) (omega (arith, length-contents b))
  idle-Appended drop_oldest h lt =
      idle-lossy drop_oldest lt refl (idle_back h) (omega (arith, length-contents b))

  append_by-Appended :
      (p : OverflowPolicy) → length bytes < 2 ^ 64 → Appended p b bytes (append_by p bytes b)
  append_by-Appended block lt = unfold append_by in block-Appended b bytes v
  append_by-Appended spool lt = unfold append_by in spool-Appended b bytes v
  append_by-Appended drop_newest lt = newest-Appended b bytes v lt
  append_by-Appended drop_oldest lt = unfold append_by in oldest-Appended b bytes v lt

  -- Over a valid buffer `append` does what the bounded queue of its policy does: it answers with the
  -- number of bytes the caller is rid of, keeps the bytes that the queue keeps, in order, counts each
  -- byte lost (modulo 2 ^ 64), and leaves the buffer valid with its capacity and policy.
  pub append-Appended : length bytes < 2 ^ 64 → Appended b.policy b bytes (append bytes b)
  unfolding append idle_out
  append-Appended lt = elim (Bool-cases ((b.capacity == 0) || (length bytes == 0))) [
    | inl e ↦ rw (e, append) (idle-Appended b.policy (ground arith) lt)
    | inr e ↦ rw (e, append) (append_by-Appended b.policy lt)
  ]
