-- ===== src/Stream/Channel/Tests.antt =====
-- The spill file and the channel at concrete inputs.
use pipe_shell_x.Base.{
  List, length, ◌⊎◌, ◌≡◌, refl, inl, [], ◌∷◌, ◌++◌, some, none, true, false, not, ◌==◌, arith,
}
use pipe_shell_x.Stream.Buffer
use pipe_shell_x.Stream.Buffer.{BoundedBuffer}
use pipe_shell_x.Stream.Spool.{Stdio, SpoolBuffer}
use pipe_shell_x.Stream.Spool.Laws
use pipe_shell_x.Stream.Spool.Laws.{
  Keeps, Spooled, Drained, spool_append-Spooled, spool_read-Drained,
}
use pipe_shell_x.Stream.Channel.{create, readable, is_live, is_error, Stream, live, read, write}
use pipe_shell_x.Stream.Channel.States.{
  Call, writes, reads, drops, closes_remote, play, eof_after, failed_after, Says, play-create,
}
use pipe_shell_x.Stream.Channel.Reads.{IsValid, pending, read-pending}
use pipe_shell_x.Stream.Channel.Ends.{IsSpent, read-ends}
use pipe_shell_x.Stream.Channel.Writes.{Accepted, write-Accepted}

-- Files whose reads come two bytes at a time, and whose third operation fails to seek.
abbrev short_reads : Stdio
short_reads = record {
  opens = λ _. true;
  flushes = λ _. true;
  spoiled = λ _ content. content;
  seeks = λ n. not (n == 2);
  writes = λ _. 100;
  reads = λ _. 2;
}

short_reads-Keeps : Keeps short_reads
short_reads-Keeps calls content = refl

-- Three bytes in a file, one of them read.
abbrev spilled : SpoolBuffer
spilled = record {
  file = some (7 ∷ 8 ∷ 9 ∷ []);
  size = 3;
  read_offset = 1;
  failed = false;
  calls = 0;
}

spilled-IsValid : Laws.IsValid spilled
spilled-IsValid = record {
  offset_in = omega arith;
  size_in = omega arith;
  exact = λ _. refl;
  word = omega arith;
}

abbrev full_buffer : BoundedBuffer
full_buffer = record {
  storage = 6 ∷ 5 ∷ [];
  capacity = 2;
  head = 1;
  size = 2;
  dropped = 0;
  policy = Buffer.spool;
}

-- The bytes 5 and 6 in the buffer, and 8 and 9 behind them in the file.
abbrev spilling : Stream
spilling = record { buffer = full_buffer; spool = spilled; state = live; failure = none }

spilling-IsValid : IsValid spilling
spilling-IsValid = record {
  buffer = record {
    cells = refl;
    small = omega arith;
    head_in = inl (omega arith);
    size_in = omega arith;
    counted = omega arith;
  };
  spool = spilled-IsValid;
  spools = refl;
}

read-pending_example :
    ((read short_reads 3 spilling).0 ++ pending (read short_reads 3 spilling).1
      ≡ 5 ∷ 6 ∷ 8 ∷ 9 ∷ [])
    × IsValid (read short_reads 3 spilling).1
read-pending_example = read-pending short_reads short_reads-Keeps 3 spilling spilling-IsValid

write-Accepted_example :
    Accepted (4 ∷ 3 ∷ []) spilling (write short_reads (4 ∷ 3 ∷ []) spilling)
    × (is_live live ≡ false → write short_reads (4 ∷ 3 ∷ []) spilling ≡ (0, spilling))
write-Accepted_example =
    write-Accepted short_reads short_reads-Keeps (4 ∷ 3 ∷ []) spilling spilling-IsValid
      (omega arith)

read-ends_example :
    (length (read short_reads 3 spilling).0 ≡ 3)
    ⊎ IsSpent short_reads (read short_reads 3 spilling).1
unfolding is_error
read-ends_example = read-ends short_reads short_reads-Keeps 3 spilling spilling-IsValid refl

-- Two bytes written, the remote end closed, one byte read and one dropped.
abbrev calls : List Call
calls = writes (1 ∷ 2 ∷ []) ∷ closes_remote ∷ reads 1 ∷ drops 1 ∷ []

play-create_example :
    let s = play short_reads calls (create 4 Buffer.spool) in
    Says (eof_after false calls) (failed_after false calls) s.state (readable s)
play-create_example = play-create short_reads 4 Buffer.spool calls
