-- ===== src/Stream/Framer/Bounds.antt =====
-- The lines that a framer gives out, against its limit, and `flush`.
use pipe_shell_x.Base.{
  ℕ, suc, ◌≡◌, ◌≢◌, ◌≤◌, ◌<◌, refl, sym, ap, subst, ◌∙◌, [], ◌∷◌, ◌++◌, List, Bool, true, false,
  Bytes, length, ◌==◌, if◌then◌else◌, arith, ==_iff, Bool-cases, inl, inr, append-nil,
  length-append, All,
}
use pipe_shell_x.Stream.Framer.{
  lf, cr, Line, LineFramer, create, emit_pending, push_data, push_plain, push_byte, push, flush,
  flush_pending, release_cr,
}
use pipe_shell_x.Stream.Framer.Lines.{unsent, held}
use pipe_shell_x.Stream.Framer.Steps.{
  push_plain-lf, push_plain-cr, push_plain_data, push_byte_plain, push_byte_ends, push_byte_bare,
}

abbrev pub IsData : ℕ → Type 0
IsData c = c ≢ lf

-- A line of a framer with limit `n`: one that is cut has just `n` bytes.
pub record IsLine (n : ℕ) (l : Line) : Type 0 where
  pub within : length l.text ≤ n
  pub no_lf : All IsData l.text
  pub cut_at_limit : l.truncated ≡ true → length l.text ≡ n

pub record IsBounded (n : ℕ) (f : LineFramer) : Type 0 where
  pub limit : f.max_line_length ≡ n
  pub positive : 0 < n
  pub within : length f.pending ≤ n
  pub no_lf : All IsData f.pending

-- The lines given out are lines, and the framer stays within its limit.
pub record IsFramed (n : ℕ) (r : List Line × LineFramer) : Type 0 where
  pub lines : All (IsLine n) r.0
  pub bounded : IsBounded n r.1

All-append :
    {A : Type 0} (P : A → Type 0) (front behind : List A)
    → All P front
    → All P behind
    → All P (front ++ behind)
All-append P [] behind none_left all = all
All-append P (first ∷ front) behind (it, others) all = (it, All-append P front behind others all)

emit_pending-IsFramed :
    (n : ℕ) (truncated : Bool) (f : LineFramer)
    → IsBounded n f
    → (truncated ≡ true → length f.pending ≡ n)
    → IsFramed n (emit_pending truncated f)
unfolding emit_pending
emit_pending-IsFramed n truncated f b cut = record {
  lines = (record { within = b.within; no_lf = b.no_lf; cut_at_limit = cut }, tt);
  bounded = record { limit = b.limit; positive = b.positive; within = omega arith; no_lf = tt };
}

room-IsBounded :
    (n c : ℕ) (f : LineFramer)
    → IsBounded n f
    → length f.pending < n
    → IsData c
    → IsBounded n (record f { pending = f.pending ++ c ∷ [] })
room-IsBounded n c f b room d = record {
  limit = b.limit;
  positive = b.positive;
  within = omega (arith, length-append f.pending (c ∷ []));
  no_lf = All-append IsData f.pending (c ∷ []) b.no_lf (d, tt);
}

push_data-IsFramed :
    (n c : ℕ) (f : LineFramer) → IsBounded n f → IsData c → IsFramed n (push_data c f)
unfolding push_data emit_pending
push_data-IsFramed n c f b d = elim (Bool-cases (length f.pending == f.max_line_length)) [
  | inl full ↦
      let e : length f.pending ≡ n = (==_iff _ _).0 full ∙ b.limit in
      let emptied = emit_pending-IsFramed n true f b (λ _. e) in
      rw full (record {
        lines = emptied.lines;
        bounded = room-IsBounded n c _ emptied.bounded emptied.bounded.positive d;
      })
  | inr room ↦ rw room (record { lines = tt; bounded = room-IsBounded n c f b (ground arith) d })
]

-- A test that fails tells the byte from the terminator.
IsData-of : (c : ℕ) → (c == lf) ≡ false → IsData c
IsData-of c e = ground arith

push_plain-IsFramed : (n c : ℕ) (f : LineFramer) → IsBounded n f → IsFramed n (push_plain c f)
push_plain-IsFramed n c f b = elim (Bool-cases (c == lf)) [
  | inl is_lf ↦ rw (push_plain-lf c f is_lf) (emit_pending-IsFramed n false f b (λ e. cc))
  | inr not_lf ↦ elim (Bool-cases (c == cr)) [
    | inl is_cr ↦ rw (push_plain-cr c f not_lf is_cr) (record {
      lines = tt;
      bounded = record {
        limit = b.limit;
        positive = b.positive;
        within = b.within;
        no_lf = b.no_lf;
      };
    })
    | inr not_cr ↦
        rw (push_plain_data c f not_lf not_cr) (push_data-IsFramed n c f b (IsData-of c not_lf))
  ]
]

released-IsBounded :
    (n : ℕ) (f : LineFramer) → IsBounded n f → IsBounded n (record f { pending_cr = false })
released-IsBounded n f b = record {
  limit = b.limit;
  positive = b.positive;
  within = b.within;
  no_lf = b.no_lf;
}

push_byte-IsFramed : (n c : ℕ) (f : LineFramer) → IsBounded n f → IsFramed n (push_byte c f)
push_byte-IsFramed n c f b = elim (Bool-cases f.pending_cr) [
  | inr e ↦ rw (push_byte_plain c f e) (push_plain-IsFramed n c f b)
  | inl e ↦
      let b' = released-IsBounded n f b in
      elim (Bool-cases (c == lf)) [
        | inl is_lf ↦ rw (push_byte_ends c f e is_lf) (emit_pending-IsFramed n false _ b' (λ k. cc))
        | inr not_lf ↦
            let first = push_data-IsFramed n cr _ b' (omega arith) in
            let then_c = push_plain-IsFramed n c _ first.bounded in
            rw (push_byte_bare c f e not_lf) (record {
              lines = All-append (IsLine n) _ _ first.lines then_c.lines;
              bounded = then_c.bounded;
            })
      ]
]

-- Every line that `push` gives out holds no LF and at most `n` bytes, just `n` if it was cut, and the
-- bytes in `pending` stay LF-free and at most `n`; a CR that is held back is not among them.
pub push-IsFramed :
    (n : ℕ) (bytes : Bytes) (f : LineFramer) → IsBounded n f → IsFramed n (push bytes f)
unfolding push
push-IsFramed n [] f b = record { lines = tt; bounded = b }
push-IsFramed n (c ∷ bytes) f b =
    let first = push_byte-IsFramed n c f b in
    let more = push-IsFramed n bytes _ first.bounded in
    record { lines = All-append (IsLine n) _ _ first.lines more.lines; bounded = more.bounded }

-- A new framer is within its limit: the one it is given, or the default for 0.
pub create-IsBounded : (n : ℕ) → IsBounded (create n).max_line_length (create n)
unfolding create
create-IsBounded n = record {
  limit = refl;
  positive = ground arith;
  within = omega arith;
  no_lf = tt;
}

release_cr-pending : (f : LineFramer) → (release_cr f).pending ≡ unsent f
unfolding release_cr unsent held
release_cr-pending f = elim (Bool-cases f.pending_cr) [
  | inl e ↦ rw e refl
  | inr e ↦ rw e (sym (append-nil f.pending))
]

release_cr-cr : (f : LineFramer) → (release_cr f).pending_cr ≡ false
unfolding release_cr
release_cr-cr f = ground arith

nil_of_empty : (bytes : Bytes) → (length bytes == 0) ≡ true → bytes ≡ []
nil_of_empty [] h = refl
nil_of_empty (c ∷ bytes) h = absurd (ground arith)

-- What a framer with no CR held back flushes.
flush_pending_lem :
    (f : LineFramer)
    → f.pending_cr ≡ false
    → ((flush_pending f).1 ≡ (
        if length f.pending == 0 then [] else record { text = f.pending; truncated = false } ∷ []))
      × ((flush_pending f).0 ≡ (if length f.pending == 0 then false else true))
      × (unsent (flush_pending f).2 ≡ [])
unfolding flush_pending unsent held
flush_pending_lem f e = elim (Bool-cases (length f.pending == 0)) [
  | inl bare ↦ simp (nil_of_empty f.pending bare, e) (refl, refl, refl)
  | inr more ↦ simp (more, e) (refl, refl, refl)
]

-- `flush` gives out what is not yet sent as one line, if that is anything, says whether it did, and
-- leaves nothing unsent.
pub flush_lem :
    (f : LineFramer)
    → ((flush f).1 ≡ (
        if length (unsent f) == 0 then [] else record { text = unsent f; truncated = false } ∷ []))
      × ((flush f).0 ≡ (if length (unsent f) == 0 then false else true))
      × (unsent (flush f).2 ≡ [])
unfolding flush
flush_lem f = rw (← release_cr-pending f) (flush_pending_lem (release_cr f) (release_cr-cr f))

-- The limit does not hold at the end of the input: a framer that is full and holds a CR back flushes a
-- line of `n + 1` bytes.
pub flush_over_limit :
    (n : ℕ) (f : LineFramer)
    → IsBounded n f
    → length f.pending ≡ n
    → f.pending_cr ≡ true
    → ¬ (All (IsLine n) (flush f).1)
unfolding unsent held
flush_over_limit n f b full e lines =
    let over : length (unsent f) ≡ suc n =
      ap (λ k. length (f.pending ++ held k)) e ∙ length-append f.pending (cr ∷ []) ∙ omega arith in
    let some_left : (length (unsent f) == 0) ≡ false = rw over (ground arith) in
    let only : (flush f).1 ≡ record { text = unsent f; truncated = false } ∷ [] =
      rw some_left at ((flush_lem f).0) in
    let one_line : All (IsLine n) (record { text = unsent f; truncated = false } ∷ []) =
      subst (All (IsLine n)) only lines in
    let within : length (unsent f) ≤ n = one_line.0.within in absurd (omega (arith, over, within))
