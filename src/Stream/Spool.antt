-- ===== src/Stream/Spool.antt =====
-- include/psx/stream/spool_buffer.hpp: the spill file of a stream. A file is the list of its bytes. How
-- a call of <cstdio> fares is a parameter, which may answer each call in its own way: `calls` counts the
-- operations that have used the file.
pub mod Laws
pub mod Dry
use pipe_shell_x.Base.{
  ℕ, suc, ◌+◌, ◌-◌, [], ◌∷◌, ◌++◌, Option, none, some, Bool, true, false, not, ◌&&◌, ◌||◌, Bytes,
  length, take, drop, min, ◌==◌, if◌then◌else◌,
}
use pipe_shell_x.Base.Words.{add64, sub64}

-- Whether `tmpfile`, `fflush` and `fseek` succeed, and how many bytes `fwrite` and `fread` move at most.
-- `fwrite` only buffers: a call that should write its bytes out and fails leaves what `spoiled` says.
pub record Stdio : Type 0 where
  pub opens : ℕ → Bool
  pub flushes : ℕ → Bool
  pub seeks : ℕ → Bool
  pub spoiled : ℕ → Bytes → Bytes
  pub writes : ℕ → ℕ
  pub reads : ℕ → ℕ

-- `file` is none for the null pointer.
pub record SpoolBuffer : Type 0 where
  pub file : Option Bytes
  pub size : ℕ
  pub read_offset : ℕ
  pub failed : Bool
  pub calls : ℕ

unfoldable pub create : SpoolBuffer
create = record { file = none; size = 0; read_offset = 0; failed = false; calls = 0 }

unfoldable pub remaining : SpoolBuffer → ℕ
remaining b = sub64 b.size b.read_offset

-- `empty`
unfoldable pub is_empty : SpoolBuffer → Bool
unfolding remaining
is_empty b = remaining b == 0

-- `reset` and `close`
unfoldable pub reset : SpoolBuffer → SpoolBuffer
reset b = record b { file = none; size = 0; read_offset = 0; failed = false }

module _ (io : Stdio) where
  -- `append` behind the opening of the file, whose content is `content`.
  pub append_to : Bytes → Bytes → SpoolBuffer → Bool × SpoolBuffer
  append_to content bytes b =
      let wrote = min (io.writes b.calls) (length bytes) in
      let b' = record b { calls = suc b.calls; file = some (content ++ take wrote bytes) } in
      if not (io.seeks b.calls)
      then (
        false,
        record b { calls = suc b.calls; file = some (io.spoiled b.calls content); failed = true },
      )
      else if not (wrote == length bytes)
      then (false, record b' { failed = true })
      else (true, record b' { size = add64 b.size (length bytes) })

  -- `append` of some bytes to a buffer that has not failed and whose file is the first argument.
  pub append_at : Option Bytes → Bytes → SpoolBuffer → Bool × SpoolBuffer
  append_at (some content) bytes b = append_to content bytes b
  append_at none bytes b =
      if io.opens b.calls
      then append_to [] bytes b
      else (false, record b { calls = suc b.calls; failed = true })

  -- `append`
  unfoldable pub append : Bytes → SpoolBuffer → Bool × SpoolBuffer
  append bytes b =
      if length bytes == 0
      then (true, b)
      else if b.failed
      then (false, b)
      else append_at b.file bytes b

  -- `read` behind its guards.
  pub read_from : Bytes → ℕ → SpoolBuffer → Bytes × SpoolBuffer
  unfolding remaining
  read_from content room b =
      let n = min room (remaining b) in
      let out = take (min (io.reads b.calls) n) (drop b.read_offset content) in
      if not (io.flushes b.calls)
      then ([], record b { calls = suc b.calls; file = some (io.spoiled b.calls content) })
      else if not (io.seeks b.calls)
      then ([], record b { calls = suc b.calls; file = some content })
      else (
        out,
        record b {
          calls = suc b.calls;
          file = some content;
          read_offset = add64 b.read_offset (length out);
        },
      )

  -- `read` from the file that is the first argument.
  pub read_at : Option Bytes → ℕ → SpoolBuffer → Bytes × SpoolBuffer
  read_at none room b = ([], b)
  read_at (some content) room b =
      if (room == 0) || is_empty b || b.failed then ([], b) else read_from content room b

  -- `read` into a span of `room` bytes.
  unfoldable pub read : ℕ → SpoolBuffer → Bytes × SpoolBuffer
  read room b = read_at b.file room b
