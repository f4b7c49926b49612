-- ===== src/Stream/Framer/Steps.antt =====
-- What `push` does with one byte, in each of its cases.
use pipe_shell_x.Base.{ℕ, ◌≡◌, refl, [], ◌++◌, true, false, arith, ◌==◌}
use pipe_shell_x.Stream.Framer.{lf, cr, LineFramer, emit_pending, push_data, push_plain, push_byte}

pub push_data-cr : (c : ℕ) (f : LineFramer) → (push_data c f).1.pending_cr ≡ f.pending_cr
unfolding push_data
push_data-cr c f = ground arith

pub push_plain-lf :
    (c : ℕ) (f : LineFramer) → (c == lf) ≡ true → push_plain c f ≡ emit_pending false f
unfolding push_plain
push_plain-lf c f e = rw e refl

pub push_plain-cr :
    (c : ℕ) (f : LineFramer)
    → (c == lf) ≡ false
    → (c == cr) ≡ true
    → push_plain c f ≡ ([], record f { pending_cr = true })
unfolding push_plain
push_plain-cr c f e e' = rw (e, e') refl

pub push_plain_data :
    (c : ℕ) (f : LineFramer)
    → (c == lf) ≡ false
    → (c == cr) ≡ false
    → push_plain c f ≡ push_data c f
unfolding push_plain
push_plain_data c f e e' = rw (e, e') refl

pub push_byte_plain :
    (c : ℕ) (f : LineFramer) → f.pending_cr ≡ false → push_byte c f ≡ push_plain c f
unfolding push_byte
push_byte_plain c f e = rw (e, push_byte) refl

pub push_byte_ends :
    (c : ℕ) (f : LineFramer)
    → f.pending_cr ≡ true
    → (c == lf) ≡ true
    → push_byte c f ≡ emit_pending false (record f { pending_cr = false })
unfolding push_byte
push_byte_ends c f e is_lf = rw (e, is_lf, push_byte) refl

pub push_byte_bare :
    (c : ℕ) (f : LineFramer)
    → f.pending_cr ≡ true
    → (c == lf) ≡ false
    → let (first, g) = push_data cr (record f { pending_cr = false }) in
      let (then_c, h) = push_plain c g in push_byte c f ≡ (first ++ then_c, h)
unfolding push_byte
push_byte_bare c f e not_lf = rw (e, not_lf, push_byte) refl
