-- ===== src/Stream/Window.antt =====
-- Circular storage: the bytes that a ring of `cap` cells holds from an index on, and `memcpy` into it.
-- It serves src/stream/bounded_buffer.cpp.
use native.Mathlib.Nat.{mod-add-mod, mod-eq_of_lt, mod-eq-sub-mod, add-zero}
use native.Mathlib.Numerals.{add-one}
use native.Mathlib.Decide.{dec_lt}
use pipe_shell_x.Base.{
  ℕ, zero, suc, ◌+◌, ◌-◌, ◌%◌, ◌≤◌, ◌<◌, ◌≡◌, ◌≢◌, refl, sym, ap, ap₂, ◌∙◌, [], ◌∷◌, ◌++◌, Bytes,
  length, get_or, set, take, drop, length-set, get_or-set_self, get_or-set_ne, arith, append-nil,
  append_assoc, suc-add, drop-cons,
}

-- `memcpy(storage + i, bytes, size)`.
pub blit : Bytes → ℕ → Bytes → Bytes
blit buf i [] = buf
blit buf i (b ∷ bs) = blit (set buf i b) (suc i) bs

pub length-blit : (buf : Bytes) (i : ℕ) (bs : Bytes) → length (blit buf i bs) ≡ length buf
unfolding blit
length-blit buf i [] = refl
length-blit buf i (b ∷ bs) = length-blit (set buf i b) (suc i) bs ∙ length-set buf i b

module _ (buf : Bytes) (cap : ℕ) where
  -- The `n` bytes from index `h` on, going round at `cap`.
  abbrev pub window : ℕ → ℕ → Bytes
  window h zero = []
  window h (suc n) = get_or buf h 0 ∷ window ((h + 1) % cap) n

  pub length-window : (from count : ℕ) → length (window from count) ≡ count
  length-window from (suc count) = ap suc (length-window ((from + 1) % cap) count)
  length-window from zero = refl

  -- A window is cut in two where a part of it ends.
  pub window-add : (h a b : ℕ) → h < cap → window h (a + b) ≡ window h a ++ window ((h + a) % cap) b
  window-add h zero b hh = ap₂ window (sym (rw add-zero (mod-eq_of_lt hh))) (omega arith)
  window-add h (suc a) b hh =
      ap (window h) (sym (suc-add a b))
      ∙ ap (◌∷◌ (get_or buf h 0)) (
          window-add ((h + 1) % cap) a b (omega arith)
          ∙ ap (λ k. window ((h + 1) % cap) a ++ window k b) shift)
    where
      shift : ((h + 1) % cap + a) % cap ≡ (h + suc a) % cap
      shift = rw mod-add-mod (ap (λ k. k % cap) (omega arith))

  -- Where it does not go round, a window is a slice.
  pub window-slice : (n h : ℕ) → h + n ≤ cap → cap ≤ length buf → window h n ≡ take n (drop h buf)
  window-slice zero h fits hs = refl
  window-slice (suc zero) h fits hs = rw (drop-cons h buf 0 (omega arith)) refl
  window-slice (suc (suc n)) h fits hs =
      rw
        (
          drop-cons h buf 0 (omega arith),
          mod-eq_of_lt {n = h + 1} {m = cap} (omega arith),
          add-one h,
        )
        (ap (◌∷◌ (get_or buf h 0)) (window-slice (suc n) (suc h) (omega arith) hs))

add_suc_comm : (n k : ℕ) → n + suc k ≡ suc n + k
add_suc_comm n k = omega arith

next_index : (i h n cap : ℕ) → i ≡ (h + n) % cap → suc i < cap → suc i ≡ (h + suc n) % cap
next_index i h n cap e lt =
    let p : suc i ≡ (h + n) % cap + 1 = omega arith in
    sym (mod-eq_of_lt lt) ∙ ap (λ k. k % cap) p ∙ rw mod-add-mod (ap (λ k. k % cap) (omega arith))

-- Fewer than `cap` steps round the ring do not come back to the start.
step-ne : (cap h k : ℕ) → h < cap → suc k < cap → (h + suc k) % cap ≢ h
step-ne cap h k inside few =
    let past : cap ≤ h + suc k → (h + suc k) % cap ≡ h + suc k - cap =
      λ wraps. mod-eq-sub-mod {n = h + suc k} {m = cap} wraps ∙ mod-eq_of_lt (omega arith) in
    elim (dec_lt (h + suc k) cap) [
      | no wraps ↦ omega (arith, past (omega arith))
      | yes short ↦ omega (arith, mod-eq_of_lt short)
    ]

-- The byte behind a window extends it, wherever the ring's end falls.
window-set :
    (buf : Bytes) (cap x n h : ℕ)
    → cap ≤ length buf
    → h < cap
    → n < cap
    → window (set buf ((h + n) % cap) x) cap h (suc n) ≡ window buf cap h n ++ (x ∷ [])
window-set buf cap x zero h hs hh hn =
    rw (add-zero, mod-eq_of_lt hh, get_or-set_self buf h x 0 (omega arith)) refl
window-set buf cap x (suc n) h hs hh hn = ap₂ ◌∷◌ (get_or-set_ne buf x 0 (step-ne _ _ _ hh hn)) (
    ap (λ k. window (set buf k x) cap ((h + 1) % cap) (suc n)) shift
    ∙ window-set buf cap x n ((h + 1) % cap) hs (omega arith) (omega arith))
  where
    shift : (h + suc n) % cap ≡ ((h + 1) % cap + n) % cap
    shift = rw mod-add-mod (ap (λ k. k % cap) (omega arith))

-- `memcpy` of bytes that end before the storage does, to just behind a window, extends it by them.
pub window-blit :
    (bs buf : Bytes) (cap n h i : ℕ)
    → cap ≤ length buf
    → h < cap
    → i ≡ (h + n) % cap
    → i + length bs ≤ cap
    → n + length bs ≤ cap
    → window (blit buf i bs) cap h (n + length bs) ≡ window buf cap h n ++ bs
unfolding blit
window-blit [] buf cap n h i hs hh e fits room =
    ap (window buf cap h) (omega arith) ∙ sym (append-nil (window buf cap h n))
window-blit (b ∷ []) buf cap n h i hs hh e fits room =
    ap (window (set buf i b) cap h) (add-one n)
    ∙ ap (λ k. window (set buf k b) cap h (suc n)) e
    ∙ window-set buf cap b n h hs hh (omega arith)
window-blit (b ∷ c ∷ bs) buf cap n h i hs hh e fits room =
    ap (window (blit (set buf i b) (suc i) (c ∷ bs)) cap h) (add_suc_comm n (length (c ∷ bs)))
    ∙ window-blit (c ∷ bs) (set buf i b) cap (suc n) h (suc i) (omega (arith, length-set buf i b))
        hh (next_index i h n cap e (omega arith)) (omega arith) (omega arith)
    ∙ ap (λ w. w ++ (c ∷ bs))
        (ap (λ k. window (set buf k b) cap h (suc n)) e
          ∙ window-set buf cap b n h hs hh (omega arith))
    ∙ append_assoc (window buf cap h n) (b ∷ []) (c ∷ bs)
