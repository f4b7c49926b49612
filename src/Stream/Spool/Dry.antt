-- ===== src/Stream/Spool/Dry.antt =====
-- When a read of the spill file gives nothing.
use pipe_shell_x.Base.{
  ℕ, suc, ◌-◌, ◌≡◌, ◌<◌, refl, ap, inl, inr, Option, none, some, true, false, ◌||◌, Bytes, length,
  take, drop, min, ◌==◌, arith, Bool-cases, length-take, length-drop,
}
use pipe_shell_x.Stream.Spool.{Stdio, SpoolBuffer, remaining, is_empty, read_at, read_from, read}
use pipe_shell_x.Stream.Spool.Laws.{Keeps, content_of, IsValid}

-- Why a spill file may give no byte: it holds none, it has failed, or the last call on it did, or that
-- call moved no byte.
pub data IsDry (io : Stdio) (b : SpoolBuffer) : Type 0 where
  exhausted : is_empty b ≡ true → IsDry io b
  poisoned : b.failed ≡ true → IsDry io b
  unflushed : (n : ℕ) → b.calls ≡ suc n → io.flushes n ≡ false → IsDry io b
  unsought : (n : ℕ) → b.calls ≡ suc n → io.seeks n ≡ false → IsDry io b
  unread_at : (n : ℕ) → b.calls ≡ suc n → io.reads n ≡ 0 → IsDry io b

module _ (io : Stdio) (keeps : Keeps io) where
  read_from-IsDry :
      (content : Bytes) (room : ℕ) (b : SpoolBuffer)
      → content_of b.file ≡ content
      → IsValid b
      → 0 < room
      → is_empty b ≡ false
      → length (read_from io content room b).0 ≡ 0
      → IsDry io (read_from io content room b).1
  unfolding read_from remaining is_empty
  read_from-IsDry content room b e v wants holds nothing = elim (Bool-cases (io.flushes b.calls)) [
    | inr bad ↦ simp bad (unflushed b.calls refl bad)
    | inl flushed ↦ elim (Bool-cases (io.seeks b.calls)) [
      | inr bad ↦ simp (flushed, bad) (unsought b.calls refl bad)
      | inl sought ↦
          let got : length (
                take (min (io.reads b.calls) (min room (remaining b))) (drop b.read_offset content))
              ≡ 0 =
            simp (flushed, sought) at nothing in
          let left : remaining b ≡ b.size - b.read_offset = omega (arith, v.word, v.offset_in) in
          let some_left : 0 < remaining b = ground (arith, holds) in
          let none_read : io.reads b.calls ≡ 0 = omega (
            arith,
            got,
            length-take (min (io.reads b.calls) (min room (remaining b)))
                (drop b.read_offset content),
            length-drop b.read_offset content,
            v.size_in,
            ap length e,
            left,
            some_left,
            wants,
          ) in
          simp (flushed, sought) (unread_at b.calls refl none_read)
    ]
  ]

  read_at-IsDry :
      (file : Option Bytes) (room : ℕ) (b : SpoolBuffer)
      → content_of b.file ≡ content_of file
      → IsValid b
      → 0 < room
      → is_empty b ≡ false
      → length (read_at io file room b).0 ≡ 0
      → IsDry io (read_at io file room b).1
  unfolding read_at is_empty remaining
  read_at-IsDry none room b e v wants holds nothing =
      absurd (ground (arith, v.size_in, ap length e, v.offset_in, v.word, holds))
  read_at-IsDry (some content) room b e v wants holds nothing = elim (Bool-cases b.failed) [
    | inl dead ↦
        let idle : ((room == 0) || is_empty b || b.failed) ≡ true = ground (arith, dead) in
        simp idle (poisoned dead)
    | inr live ↦
        let goes : ((room == 0) || is_empty b || b.failed) ≡ false =
          ground (arith, live, wants, holds) in
        let same : length (read_from io content room b).0 ≡ 0 = simp goes at nothing in
        simp goes (read_from-IsDry content room b e v wants holds same)
  ]

  pub spool_read-IsDry :
      (room : ℕ) (b : SpoolBuffer)
      → IsValid b
      → 0 < room
      → is_empty b ≡ false
      → length (read io room b).0 ≡ 0
      → IsDry io (read io room b).1
  unfolding read
  spool_read-IsDry room b v wants holds nothing =
      read_at-IsDry b.file room b refl v wants holds nothing
