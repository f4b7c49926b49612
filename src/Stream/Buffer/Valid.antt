-- ===== src/Stream/Buffer/Valid.antt =====
-- The representation invariant of `BoundedBuffer`, and the bytes that a buffer holds.
use pipe_shell_x.Base.{
  ℕ, zero, suc, ◌+◌, ◌-◌, ◌%◌, ◌^◌, ◌≤◌, ◌<◌, ◌≡◌, ◌⊎◌, inl, inr, refl, ap, ◌∙◌, Bytes, min, length,
  take, drop, length-replicate, arith, ap₂, take-append_length, length-take, Bool-cases, ◌==◌,
  drop-nil, sym, drop-all, drop-append_length,
}
use native.Mathlib.Decide.{dec_le}
use pipe_shell_x.Base.Words.{sub64}
use pipe_shell_x.Stream.Window.{window, length-window, window-add, window-slice}
use pipe_shell_x.Stream.Buffer.{
  BoundedBuffer, OverflowPolicy, create, clear, discard_front, available, peek,
}

-- A ring of no cells keeps its head at 0. A `std::vector<char>` has at most 2 ^ 63 - 1 cells.
pub record IsValid (b : BoundedBuffer) : Type 0 where
  pub cells : length b.storage ≡ b.capacity
  pub small : b.capacity < 2 ^ 63
  pub head_in : (b.head < b.capacity) ⊎ ((b.capacity ≡ 0) × (b.head ≡ 0))
  pub size_in : b.size ≤ b.capacity
  pub counted : b.dropped < 2 ^ 64

-- The buffered bytes, oldest first.
abbrev pub contents : BoundedBuffer → Bytes
contents b = window b.storage b.capacity b.head b.size

pub length-contents : (b : BoundedBuffer) → length (contents b) ≡ b.size
length-contents b = length-window b.storage b.capacity b.head b.size

pub create-IsValid :
    (capacity : ℕ) (policy : OverflowPolicy) → capacity < 2 ^ 63 → IsValid (create capacity policy)
unfolding create
create-IsValid zero policy h = record {
  cells = refl;
  small = h;
  head_in = inr (refl, refl);
  size_in = omega arith;
  counted = omega arith;
}
create-IsValid (suc n) policy h = record {
  cells = length-replicate (suc n) 0;
  small = h;
  head_in = inl (omega arith);
  size_in = omega arith;
  counted = omega arith;
}

pub clear-IsValid : (b : BoundedBuffer) → IsValid b → IsValid (clear b)
unfolding clear
clear-IsValid b v = ground arith

pub available-eq : (b : BoundedBuffer) → IsValid b → available b ≡ b.capacity - b.size
available-eq b v = omega arith

-- The index arithmetic of `discardFront` neither wraps nor leaves the ring.
pub discard_front-IsValid : (n : ℕ) (b : BoundedBuffer) → IsValid b → IsValid (discard_front n b)
unfolding discard_front
discard_front-IsValid n b v = ground arith

pub split_at : (n size : ℕ) → n ≤ size → size ≡ n + (size - n)
split_at n size h = omega arith

min_left : (n size : ℕ) → n ≤ size → n ≡ min n size
min_left n size h = omega arith

-- A window loses from its front the cells that its head passes.
pub drop-window :
    (buf : Bytes) (cap h size n : ℕ)
    → h < cap
    → drop n (window buf cap h size) ≡ window buf cap ((h + min n size) % cap) (size - min n size)
drop-window buf cap h size n hh = elim (dec_le n size) [
  | yes le ↦
      ap (λ k. drop n (window buf cap h k)) (split_at n size le)
      ∙ ap (drop n) (window-add buf cap h n (size - n) hh)
      ∙ drop-append_length n (window buf cap h n) _ (length-window buf cap h n)
      ∙ ap₂ (λ k m. window buf cap ((h + k) % cap) m) (min_left n size le)
          (ap (λ k. size - k) (min_left n size le))
  | no gt ↦
      drop-all n (window buf cap h size) (omega (arith, length-window buf cap h size))
      ∙ ap (window buf cap ((h + min n size) % cap)) {x = 0} (omega arith)
]

-- `discardFront` takes the oldest bytes away, all of them if there are no more than `n`.
pub contents-discard_front :
    (n : ℕ) (b : BoundedBuffer) → IsValid b → contents (discard_front n b) ≡ drop n (contents b)
unfolding discard_front
contents-discard_front n b v = elim v.head_in [
  | inl lt ↦
      let at : (discard_front n b).head ≡ (b.head + min n b.size) % b.capacity = ground arith in
      let left : (discard_front n b).size ≡ b.size - min n b.size = ground arith in
      ap₂ (window b.storage b.capacity) at left
      ∙ sym (drop-window b.storage b.capacity b.head b.size n lt)
  | inr (none_in, _) ↦
      let gone : (discard_front n b).size ≡ 0 = ground arith in
      ap (window b.storage b.capacity (discard_front n b).head) gone
      ∙ sym (drop-nil n)
      ∙ ap (λ k. drop n (window b.storage b.capacity b.head k)) {x = 0} (omega arith)
]

-- Up to the end of the storage the cells from the head on are the front of the window.
pub slice-window :
    (buf : Bytes) (cap h size r : ℕ)
    → h < cap
    → cap ≤ length buf
    → r ≤ size
    → h + r ≤ cap
    → take r (drop h buf) ≡ take r (window buf cap h size)
slice-window buf cap h size r hh hs le fits =
    sym (window-slice buf cap r h fits hs)
    ∙ sym (take-append_length r (window buf cap h r) _ (length-window buf cap h r))
    ∙ ap (take r) (sym (window-add buf cap h r (size - r) hh))
    ∙ ap (λ k. take r (window buf cap h k)) (sym (split_at r size le))

pub head-lt : (b : BoundedBuffer) → IsValid b → 0 < b.size → b.head < b.capacity
head-lt b v h = ground arith

peek-eq :
    (b : BoundedBuffer) → IsValid b → peek b ≡ take (min b.size (b.capacity - b.head)) (contents b)
unfolding peek
peek-eq b v = elim (Bool-cases (b.size == 0)) [
  | inl e ↦ let bare : min b.size (b.capacity - b.head) ≡ 0 = ground arith in rw (e, bare) refl
  | inr e ↦
      let some_in : 0 < b.size = ground arith in
      let run : min b.size (sub64 b.capacity b.head) ≡ min b.size (b.capacity - b.head) =
        ground (arith, head-lt b v some_in) in
      rw (e, run)
        (slice-window b.storage b.capacity b.head b.size (min b.size (b.capacity - b.head))
          (head-lt b v some_in) (omega arith) (omega arith) (omega (arith, head-lt b v some_in)))
]

-- `peek` shows a run of the buffered bytes from the oldest on: it is empty only if the buffer is.
pub peek-contents :
    (b : BoundedBuffer)
    → IsValid b
    → (peek b ≡ take (min b.size (b.capacity - b.head)) (contents b))
      × (length (peek b) ≡ min b.size (b.capacity - b.head))
unfolding peek
peek-contents b v = (
  peek-eq b v,
  ap length (peek-eq b v)
      ∙ length-take (min b.size (b.capacity - b.head)) (contents b)
      ∙ omega (arith, length-contents b),
)
