-- ===== src/Stream/Framer/Lines.antt =====
-- What the lines of a framer say of the bytes that it was fed.
use pipe_shell_x.Base.{
  ℕ, ◌≡◌, refl, sym, ap, ◌∙◌, [], ◌∷◌, ◌++◌, List, Bool, true, false, Bytes, ◌==◌, if◌then◌else◌,
  ◌&&◌, arith, ==_iff, Bool-cases, inl, inr, append_assoc, append-nil,
}
use pipe_shell_x.Stream.Framer.Steps.{
  push_data-cr, push_plain-lf, push_plain-cr, push_plain_data, push_byte_plain, push_byte_ends,
  push_byte_bare,
}
use pipe_shell_x.Stream.Framer.{
  lf, cr, Line, LineFramer, emit_pending, push_data, push_plain, push_byte, push,
}

next_is_lf : Bytes → Bool
next_is_lf [] = false
next_is_lf (c ∷ bytes) = c == lf

-- The bytes with every CR taken out that stands right before an LF.
pub crlf_to_lf : Bytes → Bytes
unfolding next_is_lf
crlf_to_lf [] = []
crlf_to_lf (c ∷ bytes) =
    let rest = crlf_to_lf bytes in if (c == cr) && next_is_lf bytes then rest else c ∷ rest

-- The bytes that lines spell: a line that was cut at the limit has no terminator.
pub spelled : List Line → Bytes
spelled [] = []
spelled (l ∷ ls) = l.text ++ (if l.truncated then [] else lf ∷ []) ++ spelled ls

-- The CR that is held back.
unfoldable pub held : Bool → Bytes
held true = cr ∷ []
held false = []

-- The bytes that a framer has and has not passed on.
unfoldable pub unsent : LineFramer → Bytes
unfolding held
unsent f = f.pending ++ held f.pending_cr

spelled-append : (xs ys : List Line) → spelled (xs ++ ys) ≡ spelled xs ++ spelled ys
unfolding spelled
spelled-append [] ys = refl
spelled-append (l ∷ xs) ys = simp (spelled-append xs, append_assoc)

push_data-spelled :
    (c : ℕ) (f : LineFramer)
    → spelled (push_data c f).0 ++ (push_data c f).1.pending ≡ f.pending ++ c ∷ []
unfolding push_data spelled
push_data-spelled c f = ground (arith, append-nil f.pending)

crlf_to_lf_other :
    (c : ℕ) (bytes : Bytes) → (c == cr) ≡ false → crlf_to_lf (c ∷ bytes) ≡ c ∷ crlf_to_lf bytes
unfolding crlf_to_lf
crlf_to_lf_other c bytes e = rw e refl

-- What a framer with the lines it has given out says of the bytes to come.
promised : List Line × LineFramer → Bytes → Bytes
promised (out, f) bytes = spelled out ++ f.pending ++ crlf_to_lf (held f.pending_cr ++ bytes)

push_plain-spelled :
    (c : ℕ) (bytes : Bytes) (f : LineFramer)
    → f.pending_cr ≡ false
    → promised (push_plain c f) bytes ≡ f.pending ++ crlf_to_lf (c ∷ bytes)
unfolding promised emit_pending spelled held
push_plain-spelled c bytes f e = elim (Bool-cases (c == lf)) [
  | inl is_lf ↦
      rw (push_plain-lf c f is_lf, (==_iff c lf).0 is_lf, e, crlf_to_lf_other lf bytes refl)
        (simp (append-nil, append_assoc))
  | inr not_lf ↦ elim (Bool-cases (c == cr)) [
    | inl is_cr ↦ rw (push_plain-cr c f not_lf is_cr, (==_iff c cr).0 is_cr) refl
    | inr not_cr ↦
        rw (push_plain_data c f not_lf not_cr, crlf_to_lf_other c bytes not_cr, push_data-cr c f, e)
          (ap (λ w. w ++ crlf_to_lf bytes) (push_data-spelled c (record f { pending_cr = false }))
            ∙ append_assoc f.pending (c ∷ []) (crlf_to_lf bytes))
  ]
]

promised-append :
    (first then_c : List Line) (h : LineFramer) (bytes : Bytes)
    → promised (first ++ then_c, h) bytes ≡ spelled first ++ promised (then_c, h) bytes
unfolding promised
promised-append first then_c h bytes = simp (spelled-append, append_assoc)

crlf_to_lf_bare :
    (c : ℕ) (bytes : Bytes)
    → (c == lf) ≡ false
    → crlf_to_lf (cr ∷ c ∷ bytes) ≡ cr ∷ crlf_to_lf (c ∷ bytes)
unfolding crlf_to_lf next_is_lf
crlf_to_lf_bare c bytes e = rw (e, next_is_lf) refl

crlf_before_lf : (bytes : Bytes) → crlf_to_lf (cr ∷ lf ∷ bytes) ≡ crlf_to_lf (lf ∷ bytes)
unfolding crlf_to_lf next_is_lf
crlf_before_lf bytes = refl

push_byte-spelled :
    (c : ℕ) (bytes : Bytes) (f : LineFramer)
    → promised (push_byte c f) bytes ≡ f.pending ++ crlf_to_lf (held f.pending_cr ++ c ∷ bytes)
unfolding held
push_byte-spelled c bytes f = elim (Bool-cases f.pending_cr) [
  | inr e ↦
      rw (push_byte_plain c f e, e)
        (push_plain-spelled c bytes (record f { pending_cr = false }) refl)
  | inl e ↦ elim (Bool-cases (c == lf)) [
    | inl is_lf ↦
        let here = record f { pending_cr = false } in
        rw (push_byte_ends c f e is_lf, e, (==_iff c lf).0 is_lf)
          (ap (λ r. promised r bytes) (sym (push_plain-lf lf here refl))
            ∙ push_plain-spelled lf bytes here refl
            ∙ ap (λ w. f.pending ++ w) (sym (crlf_before_lf bytes)))
    | inr not_lf ↦
        let here = record f { pending_cr = false } in
        let g = (push_data cr here).1 in
        rw
          (
            push_byte_bare c f e not_lf,
            promised-append,
            e,
            crlf_to_lf_bare c bytes not_lf,
            push_plain-spelled c bytes g (push_data-cr cr here),
          )
          (sym (append_assoc (spelled (push_data cr here).0) g.pending (crlf_to_lf (c ∷ bytes)))
            ∙ ap (λ w. w ++ crlf_to_lf (c ∷ bytes)) (push_data-spelled cr here)
            ∙ append_assoc f.pending (cr ∷ []) (crlf_to_lf (c ∷ bytes)))
  ]
]

promised-nil : (out : List Line) (f : LineFramer) → promised (out, f) [] ≡ spelled out ++ unsent f
unfolding promised unsent
promised-nil out f = elim (Bool-cases f.pending_cr) [
  | inl e ↦
      rw e (unfold held crlf_to_lf next_is_lf in append_assoc (spelled out) f.pending (cr ∷ []))
  | inr e ↦ rw e (unfold held crlf_to_lf in append_assoc (spelled out) f.pending [])
]

-- No byte is lost, doubled or moved, however the input is cut into chunks and lines: what the lines
-- spell, with what is not yet sent behind it, is what the framer had and was fed, with each CR that
-- stands right before an LF taken out.
pub push-spelled :
    (bytes : Bytes) (f : LineFramer)
    → let (out, g) = push bytes f in
      spelled out ++ unsent g ≡ f.pending ++ crlf_to_lf (held f.pending_cr ++ bytes)
unfolding push promised spelled
push-spelled [] f = sym (promised-nil [] f)
push-spelled (c ∷ bytes) f =
    let (out, g) = push_byte c f in
    let (more, h) = push bytes g in
    ap (λ w. w ++ unsent h) (spelled-append out more)
    ∙ append_assoc (spelled out) (spelled more) (unsent h)
    ∙ ap (λ w. spelled out ++ w) (push-spelled bytes g)
    ∙ sym (append_assoc (spelled out) g.pending (crlf_to_lf (held g.pending_cr ++ bytes)))
    ∙ push_byte-spelled c bytes f
