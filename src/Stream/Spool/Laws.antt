-- ===== src/Stream/Spool/Laws.antt =====
-- The spill file as a queue, where a call that fails loses none of its bytes.
use pipe_shell_x.Base.{
  ℕ, suc, ◌+◌, ◌-◌, ◌^◌, ◌≡◌, ◌≤◌, ◌<◌, refl, sym, ap, ap₂, ◌∙◌, inl, inr, [], ◌++◌, Option, none,
  some, Bool, true, false, Bytes, length, take, drop, min, ◌==◌, if◌then◌else◌, arith, ◌||◌,
  nil_of_length, Bool-cases, subst, append-nil, length-append, length-take, length-drop, drop-drop,
  take-add, take-append_left, drop-append_left, take-all,
}
use pipe_shell_x.Base.Words.{add64}
use pipe_shell_x.Stream.Spool.{
  Stdio, SpoolBuffer, create, remaining, is_empty, append_to, append_at, append, read_from, read_at,
  read,
}

-- A call that fails loses none of the bytes that the file has taken.
abbrev pub Keeps : Stdio → Type 0
Keeps io = (calls : ℕ) (content : Bytes) → io.spoiled calls content ≡ content

abbrev pub content_of : Option Bytes → Bytes
content_of none = []
content_of (some content) = content

-- The bytes that are spooled and not yet read.
abbrev pub unread : SpoolBuffer → Bytes
unread b = take (b.size - b.read_offset) (drop b.read_offset (content_of b.file))

-- Only a failed write leaves bytes in the file behind its counted end.
pub record IsValid (b : SpoolBuffer) : Type 0 where
  pub offset_in : b.read_offset ≤ b.size
  pub size_in : b.size ≤ length (content_of b.file)
  pub exact : b.failed ≡ false → length (content_of b.file) ≡ b.size
  pub word : b.size < 2 ^ 63

pub create-IsValid : IsValid create
unfolding create
create-IsValid = record {
  offset_in = omega arith;
  size_in = omega arith;
  exact = λ _. refl;
  word = omega arith;
}

pub length-unread : (b : SpoolBuffer) → IsValid b → length (unread b) ≡ b.size - b.read_offset
length-unread b v = omega (
  arith,
  length-take (b.size - b.read_offset) (drop b.read_offset (content_of b.file)),
  length-drop b.read_offset (content_of b.file),
  v.size_in,
)

-- Bytes behind the counted end are not part of the queue.
unread_behind :
    (content more : Bytes) (size offset : ℕ)
    → offset ≤ size
    → size ≤ length content
    → take (size - offset) (drop offset (content ++ more))
      ≡ take (size - offset) (drop offset content)
unread_behind content more size offset le inside =
    ap (take (size - offset)) (drop-append_left offset content more (omega arith))
    ∙ take-append_left (size - offset) (drop offset content) more
        (omega (arith, length-drop offset content))

-- Bytes at the counted end extend it.
unread_longer :
    (content bytes : Bytes) (size offset : ℕ)
    → offset ≤ size
    → length content ≡ size
    → take (size + length bytes - offset) (drop offset (content ++ bytes))
      ≡ take (size - offset) (drop offset content) ++ bytes
unread_longer content bytes size offset le exact =
    ap (take (size + length bytes - offset)) (drop-append_left offset content bytes (omega arith))
    ∙ take-all (size + length bytes - offset) (drop offset content ++ bytes)
        (omega (arith, length-append (drop offset content) bytes, length-drop offset content))
    ∙ ap (λ w. w ++ bytes)
        (sym (
          take-all (size - offset) (drop offset content)
            (omega (arith, length-drop offset content))))

pub record Spooled (b : SpoolBuffer) (bytes : Bytes) (out : Bool × SpoolBuffer) : Type 0 where
  pub queue : unread out.1 ≡ (if out.0 then unread b ++ bytes else unread b)
  pub valid : IsValid out.1

pub record Drained (room : ℕ) (b : SpoolBuffer) (out : Bytes × SpoolBuffer) : Type 0 where
  pub queue : out.0 ++ unread out.1 ≡ unread b
  pub within : length out.0 ≤ room
  pub valid : IsValid out.1

minus_minus : (a b c : ℕ) → a - (b + c) ≡ a - b - c
minus_minus a b c = omega arith

failing :
    (b : SpoolBuffer) (bytes content more : Bytes) (calls : ℕ)
    → content_of b.file ≡ content
    → IsValid b
    → Spooled b bytes
        (false, record b { calls = calls; file = some (content ++ more); failed = true })
failing b bytes content more calls e v = record {
  queue =
      unread_behind content more b.size b.read_offset v.offset_in
        (omega (arith, v.size_in, ap length e))
      ∙ ap (λ w. take (b.size - b.read_offset) (drop b.read_offset w)) (sym e);
  valid = record {
    offset_in = v.offset_in;
    size_in = omega (arith, v.size_in, ap length e, length-append content more);
    exact = λ never. cc;
    word = v.word;
  };
}

module _ (io : Stdio) (keeps : Keeps io) where
  append_to-Spooled :
      (content bytes : Bytes) (b : SpoolBuffer)
      → content_of b.file ≡ content
      → IsValid b
      → b.failed ≡ false
      → b.size + length bytes < 2 ^ 63
      → Spooled b bytes (append_to io content bytes b)
  unfolding append_to
  append_to-Spooled content bytes b e v live fits =
      let whole : content ++ take (min (io.writes b.calls) (length bytes)) bytes
          ≡ content ++ take (min (io.writes b.calls) (length bytes)) bytes =
        refl in
      elim (Bool-cases (io.seeks b.calls)) [
        | inr bad ↦ simp bad (
            subst
              (λ w.
                Spooled b bytes
                  (false, record b { calls = suc b.calls; file = some w; failed = true }))
              (append-nil content ∙ sym (keeps b.calls content))
              (failing b bytes content [] (suc b.calls) e v))
        | inl fine ↦ elim (Bool-cases (min (io.writes b.calls) (length bytes) == length bytes)) [
          | inr short ↦
              simp (fine, short)
                (failing b bytes content (take (min (io.writes b.calls) (length bytes)) bytes)
                  (suc b.calls) e v)
          | inl all ↦
              let every : take (min (io.writes b.calls) (length bytes)) bytes ≡ bytes =
                take-all _ bytes (ground arith) in
              let size : length content ≡ b.size = sym (ap length e) ∙ v.exact live in
              let sum : add64 b.size (length bytes) ≡ b.size + length bytes = omega arith in
              simp (fine, all, every, sum)
                (record {
                  queue =
                      unread_longer content bytes b.size b.read_offset v.offset_in size
                      ∙ ap (λ w. take (b.size - b.read_offset) (drop b.read_offset w) ++ bytes)
                          (sym e);
                  valid = record {
                    offset_in = omega (arith, v.offset_in);
                    size_in = omega (arith, size, length-append content bytes);
                    exact = λ _. omega (arith, size, length-append content bytes);
                    word = fits;
                  };
                })
        ]
      ]

  unopened :
      (b : SpoolBuffer) (bytes : Bytes)
      → IsValid b
      → Spooled b bytes (false, record b { calls = suc b.calls; failed = true })
  unopened b bytes v = record {
    queue = refl;
    valid = record {
      offset_in = v.offset_in;
      size_in = v.size_in;
      exact = λ never. cc;
      word = v.word;
    };
  }

  append_at-Spooled :
      (file : Option Bytes) (bytes : Bytes) (b : SpoolBuffer)
      → content_of b.file ≡ content_of file
      → IsValid b
      → b.failed ≡ false
      → b.size + length bytes < 2 ^ 63
      → Spooled b bytes (append_at io file bytes b)
  unfolding append_at
  append_at-Spooled (some content) bytes b e v live fits =
      append_to-Spooled content bytes b e v live fits
  append_at-Spooled none bytes b e v live fits = elim (Bool-cases (io.opens b.calls)) [
    | inl opened ↦ simp opened (append_to-Spooled [] bytes b e v live fits)
    | inr bad ↦ simp bad (unopened b bytes v)
  ]

  appends_dead :
      (bytes : Bytes) (b : SpoolBuffer)
      → (length bytes == 0) ≡ false
      → b.failed ≡ true
      → append io bytes b ≡ (false, b)
  unfolding append
  appends_dead bytes b something dead =
      rw something (ap (λ f. if f then (false, b) else append_at io b.file bytes b) dead)

  appends_live :
      (bytes : Bytes) (b : SpoolBuffer)
      → (length bytes == 0) ≡ false
      → b.failed ≡ false
      → append io bytes b ≡ append_at io b.file bytes b
  unfolding append
  appends_live bytes b something live =
      rw something (ap (λ f. if f then (false, b) else append_at io b.file bytes b) live)

  -- Where a call that fails loses nothing, an append that reports success puts its bytes behind the queue,
  -- and one that fails leaves the queue as it was, however much of the bytes the file took.
  pub spool_append-Spooled :
      (bytes : Bytes) (b : SpoolBuffer)
      → IsValid b
      → b.size + length bytes < 2 ^ 63
      → Spooled b bytes (append io bytes b)
  unfolding append
  spool_append-Spooled bytes b v fits = elim (Bool-cases (length bytes == 0)) [
    | inl nothing ↦ simp nothing (record {
      queue =
          sym (append-nil (unread b))
          ∙ ap (λ w. unread b ++ w) (sym (nil_of_length bytes (ground arith)));
      valid = v;
    })
    | inr something ↦ elim (Bool-cases b.failed) [
      | inl dead ↦
          subst (Spooled b bytes) (sym (appends_dead bytes b something dead))
            (record { queue = refl; valid = v })
      | inr live ↦
          subst (Spooled b bytes) (sym (appends_live bytes b something live))
            (append_at-Spooled b.file bytes b refl v live fits)
    ]
  ]

  -- The front of the queue, taken.
  front-Drained :
      (content : Bytes) (room m calls : ℕ) (b : SpoolBuffer)
      → content_of b.file ≡ content
      → IsValid b
      → m ≤ room
      → m ≤ b.size - b.read_offset
      → Drained room b (
        take m (drop b.read_offset content),
        record b {
          calls = calls;
          file = some content;
          read_offset = add64 b.read_offset (length (take m (drop b.read_offset content)));
        },
      )
  front-Drained content room m calls b e v small inside =
      let left : length content - b.read_offset ≡ length (drop b.read_offset content) =
        sym (length-drop b.read_offset content) in
      let size : length (take m (drop b.read_offset content)) ≡ m =
        omega (arith, length-take m (drop b.read_offset content), left, v.size_in, ap length e) in
      let moved : add64 b.read_offset (length (take m (drop b.read_offset content)))
          ≡ b.read_offset + m =
        omega (arith, size, v.size_in, v.word, v.offset_in) in
      record {
        queue =
            ap (λ k. take m (drop b.read_offset content) ++ take (b.size - k) (drop k content))
              moved
            ∙ ap₂ (λ k w. take m (drop b.read_offset content) ++ take k w)
                (minus_minus b.size b.read_offset m) (sym (drop-drop m b.read_offset content))
            ∙ sym (take-add m (b.size - b.read_offset - m) (drop b.read_offset content))
            ∙ ap₂ (λ k w. take k (drop b.read_offset w)) (omega (arith, inside)) (sym e);
        within = omega (arith, size);
        valid = record {
          offset_in = omega (arith, moved, v.offset_in);
          size_in = omega (arith, v.size_in, ap length e);
          exact = λ fine. sym (ap length e) ∙ v.exact fine;
          word = v.word;
        };
      }

  -- A read that gives nothing and keeps the content.
  none-Drained :
      (content : Bytes) (room calls : ℕ) (b : SpoolBuffer)
      → content_of b.file ≡ content
      → IsValid b
      → Drained room b ([], record b { calls = calls; file = some content })
  none-Drained content room calls b e v = record {
    queue = ap (λ w. take (b.size - b.read_offset) (drop b.read_offset w)) (sym e);
    within = omega arith;
    valid = record {
      offset_in = v.offset_in;
      size_in = omega (arith, v.size_in, ap length e);
      exact = λ fine. sym (ap length e) ∙ v.exact fine;
      word = v.word;
    };
  }

  read_from-Drained :
      (content : Bytes) (room : ℕ) (b : SpoolBuffer)
      → content_of b.file ≡ content
      → IsValid b
      → Drained room b (read_from io content room b)
  unfolding read_from remaining
  read_from-Drained content room b e v = elim (Bool-cases (io.flushes b.calls)) [
    | inr bad ↦ simp bad (
        subst (λ w. Drained room b ([], record b { calls = suc b.calls; file = some w }))
          (sym (keeps b.calls content)) (none-Drained content room (suc b.calls) b e v))
    | inl flushed ↦ elim (Bool-cases (io.seeks b.calls)) [
      | inr bad ↦ simp (flushed, bad) (none-Drained content room (suc b.calls) b e v)
      | inl fine ↦
          let n : remaining b ≡ b.size - b.read_offset = omega (arith, v.word, v.offset_in) in
          simp (flushed, fine)
            (front-Drained content room (min (io.reads b.calls) (min room (remaining b)))
              (suc b.calls) b e v (omega arith) (omega (arith, n)))
    ]
  ]

  read_at-Drained :
      (file : Option Bytes) (room : ℕ) (b : SpoolBuffer)
      → content_of b.file ≡ content_of file
      → IsValid b
      → Drained room b (read_at io file room b)
  unfolding read_at
  read_at-Drained none room b e v = record { queue = refl; within = omega arith; valid = v }
  read_at-Drained (some content) room b e v =
      elim (Bool-cases ((room == 0) || is_empty b || b.failed)) [
        | inl idle ↦ simp idle (record { queue = refl; within = omega arith; valid = v })
        | inr goes ↦ simp goes (read_from-Drained content room b e v)
      ]

  -- Where a call that fails loses nothing, what is read is the front of the queue, and the rest stays.
  pub spool_read-Drained :
      (room : ℕ) (b : SpoolBuffer) → IsValid b → Drained room b (read io room b)
  unfolding read
  spool_read-Drained room b v = read_at-Drained b.file room b refl v
