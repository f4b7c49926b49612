-- ===== src/Stream/Buffer/Append/Fits.antt =====
-- `appendUpTo`: the ring copy, which takes what fits.
use native.Mathlib.Decide.{dec_le, dec_lt}
use native.Mathlib.Nat.{mod-add-mod, mod_self}
use pipe_shell_x.Base.{
  ℕ, ◌+◌, ◌-◌, ◌%◌, ◌^◌, ◌≤◌, ◌<◌, ◌≡◌, inl, refl, sym, ap, ◌∙◌, ◌++◌, Bytes, min, length, take,
  drop, arith, length-take, length-drop, take-add, take-min, append_assoc, append-nil, ◌==◌, ltb,
  true, false,
}
use pipe_shell_x.Base.Words.{add64, sub64}
use pipe_shell_x.Stream.Window.{window, blit, length-blit, window-blit}
use pipe_shell_x.Stream.Buffer.{BoundedBuffer, available, append_up_to, copy_in}
use pipe_shell_x.Stream.Buffer.Valid.{IsValid, contents}

-- The first run ends where the bytes or the storage does.
copy_once :
    (st : Bytes) (cap h size n : ℕ) (bytes : Bytes)
    → length st ≡ cap
    → h < cap
    → size + n ≤ cap
    → n ≤ length bytes
    → (h + size) % cap + n ≤ cap
    → window (blit st ((h + size) % cap) (take n bytes)) cap h (size + n)
      ≡ window st cap h size ++ take n bytes
copy_once st cap h size n bytes cells hh room le fits =
    let all : length (take n bytes) ≡ n = omega (arith, length-take n bytes) in
    ap (λ k. window (blit st ((h + size) % cap) (take n bytes)) cap h (size + k)) (sym all)
    ∙ window-blit (take n bytes) st cap size h ((h + size) % cap) (omega arith) hh refl
        (omega arith) (omega arith)

wraps_to_zero :
    (cap h size r : ℕ) → h < cap → (h + size) % cap + r ≡ cap → 0 ≡ (h + (size + r)) % cap
wraps_to_zero cap h size r hh e =
    sym (mod_self cap)
    ∙ ap (λ k. k % cap) (sym e)
    ∙ rw mod-add-mod (ap (λ k. k % cap) (omega arith))

regroup : (r n : ℕ) → r ≤ n → r + (n - r) ≡ n
regroup r n h = omega arith

-- The second run starts at cell 0 and holds the rest.
copy_rest :
    (st : Bytes) (cap h size n r : ℕ) (bytes : Bytes)
    → length st ≡ cap
    → h < cap
    → size + n ≤ cap
    → n ≤ length bytes
    → (h + size) % cap + r ≡ cap
    → r < n
    → window
        (blit (blit st ((h + size) % cap) (take r bytes)) 0 (take (n - r) (drop r bytes)))
        cap
        h
        (size + n)
      ≡ window st cap h size ++ take n bytes
copy_rest st cap h size n r bytes cells hh room le e lt =
    let first = blit st ((h + size) % cap) (take r bytes) in
    let rest = take (n - r) (drop r bytes) in
    let cells' : length first ≡ cap = length-blit st ((h + size) % cap) (take r bytes) ∙ cells in
    let count : length rest ≡ n - r =
      omega (arith, length-take (n - r) (drop r bytes), length-drop r bytes) in
    let total : size + n ≡ (size + r) + length rest = omega arith in
    ap (window (blit first 0 rest) cap h) total
    ∙ window-blit rest first cap (size + r) h 0 (omega arith) hh (wraps_to_zero cap h size r hh e)
        (omega arith) (omega arith)
    ∙ ap (λ w. w ++ rest)
        (copy_once st cap h size r bytes cells hh (omega arith) (omega arith) (omega arith))
    ∙ append_assoc (window st cap h size) (take r bytes) rest
    ∙ ap (λ w. window st cap h size ++ w)
        (sym (take-add r (n - r) bytes) ∙ ap (λ k. take k bytes) (regroup r n (omega arith)))

module _ (st : Bytes) (cap t n : ℕ) (bytes : Bytes) (small : cap < 2 ^ 63) (inside : t < cap)
    (le : n ≤ cap) where
  copy_in_once : t + n ≤ cap → copy_in st cap t n bytes ≡ blit st t (take n bytes)
  unfolding copy_in
  copy_in_once fits =
      let r : min n (sub64 cap t) ≡ n = omega arith in
      let same : ltb n n ≡ false = ground arith in rw (r, same) refl

  copy_in_twice :
      (r : ℕ)
      → t + r ≡ cap
      → r < n
      → copy_in st cap t n bytes ≡ blit (blit st t (take r bytes)) 0 (take (n - r) (drop r bytes))
  unfolding copy_in
  copy_in_twice r e lt =
      let m : min n (sub64 cap t) ≡ r = omega arith in
      let more : ltb r n ≡ true = ground arith in
      let left : sub64 n r ≡ n - r = omega arith in rw (m, more, left) refl

copy_in-window :
    (st : Bytes) (cap h size n : ℕ) (bytes : Bytes)
    → length st ≡ cap
    → cap < 2 ^ 63
    → h < cap
    → size + n ≤ cap
    → n ≤ length bytes
    → window (copy_in st cap ((h + size) % cap) n bytes) cap h (size + n)
      ≡ window st cap h size ++ take n bytes
unfolding copy_in
copy_in-window st cap h size n bytes cells small hh room le =
    elim (dec_le ((h + size) % cap + n) cap) [
      | yes fits ↦
          rw (copy_in_once st cap ((h + size) % cap) n bytes small (omega arith) (omega arith) fits)
            (copy_once st cap h size n bytes cells hh room le fits)
      | no over ↦
          let t = (h + size) % cap in
          let r = cap - t in
          rw
            (copy_in_twice st cap t n bytes small (omega arith) (omega arith) r (omega arith)
              (omega arith))
            (copy_rest st cap h size n r bytes cells hh room le (omega arith) (omega arith))
    ]

length-copy_in :
    (st : Bytes) (cap t n : ℕ) (bytes : Bytes) → length (copy_in st cap t n bytes) ≡ length st
unfolding copy_in
length-copy_in st cap t n bytes =
    let r = min n (sub64 cap t) in
    let more = take (sub64 n r) (drop r bytes) in
    ground (arith, length-blit st t (take r bytes), length-blit (blit st t (take r bytes)) 0 more)

-- What `appendUpTo` returns and leaves, over a valid buffer.
pub record Fitted (b : BoundedBuffer) (bytes : Bytes) (out : ℕ × BoundedBuffer) : Type 0 where
  pub count : out.0 ≡ min (length bytes) (b.capacity - b.size)
  pub kept : contents out.1 ≡ contents b ++ take (b.capacity - b.size) bytes
  pub valid : IsValid out.1
  pub same_dropped : out.1.dropped ≡ b.dropped
  pub same_capacity : out.1.capacity ≡ b.capacity
  pub same_policy : out.1.policy ≡ b.policy

module _ (bytes : Bytes) (b : BoundedBuffer) (v : IsValid b) where
  no_room : min (length bytes) (b.capacity - b.size) ≡ 0 → append_up_to bytes b ≡ (0, b)
  unfolding append_up_to
  no_room e = let n : min (length bytes) (available b) ≡ 0 = omega arith in rw n refl

  grown : ℕ → BoundedBuffer
  grown n = record b {
    storage = copy_in b.storage b.capacity ((b.head + b.size) % b.capacity) n bytes;
    size = b.size + n;
  }

  some_room :
      (n : ℕ)
      → n ≡ min (length bytes) (b.capacity - b.size)
      → 0 < n
      → append_up_to bytes b ≡ (n, grown n)
  unfolding append_up_to grown
  some_room n e pos =
      let m : min (length bytes) (available b) ≡ n = omega arith in
      let test : (n == 0) ≡ false = ground arith in
      let at : add64 b.head b.size ≡ b.head + b.size = omega arith in
      let up : add64 b.size n ≡ b.size + n = omega arith in rw (m, test, at, up) refl

  grown-Fitted :
      (n : ℕ) → n ≡ min (length bytes) (b.capacity - b.size) → 0 < n → Fitted b bytes (n, grown n)
  unfolding grown
  grown-Fitted n e pos =
      let in_ring : b.head < b.capacity = ground arith in
      record {
        count = e;
        kept =
            copy_in-window b.storage b.capacity b.head b.size n bytes v.cells v.small in_ring
              (omega arith) (omega arith)
            ∙ ap (λ w. contents b ++ w)
                (ap (λ k. take k bytes) e ∙ take-min (b.capacity - b.size) bytes);
        valid = record {
          cells =
              length-copy_in b.storage b.capacity ((b.head + b.size) % b.capacity) n bytes
              ∙ v.cells;
          small = v.small;
          head_in = inl in_ring;
          size_in = omega arith;
          counted = v.counted;
        };
        same_dropped = refl;
        same_capacity = refl;
        same_policy = refl;
      }

  pub append_up_to-Fitted : Fitted b bytes (append_up_to bytes b)
  append_up_to-Fitted = elim (dec_lt 0 (min (length bytes) (b.capacity - b.size))) [
    | yes pos ↦
        rw (some_room _ refl pos) (grown-Fitted (min (length bytes) (b.capacity - b.size)) refl pos)
    | no none_fit ↦
        let zero_fit : min (length bytes) (b.capacity - b.size) ≡ 0 = omega arith in
        rw (no_room zero_fit) (record {
          count = omega arith;
          kept =
              sym (append-nil (contents b))
              ∙ ap (λ w. contents b ++ w)
                  (ap (λ k. take k bytes) (sym zero_fit) ∙ take-min (b.capacity - b.size) bytes);
          valid = v;
          same_dropped = refl;
          same_capacity = refl;
          same_policy = refl;
        })
  ]
