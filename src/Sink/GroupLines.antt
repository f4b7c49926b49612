-- ===== src/Sink/GroupLines.antt =====
-- src/sink/group_sink.cpp: a block for each stage, when it finishes. `out` is what is written.
pub mod Laws
mod Tests
use pipe_shell_x.Base.{[], ◌∷◌, ◌++◌, List, Bytes, codes, length, ◌==◌, if◌then◌else◌}
use pipe_shell_x.Sink.{Channel, stdout, stderr, StageResult, buffer_of, erase, store}

pub record LineBuffer : Type 0 where
  pub stdout_lines : List Bytes
  pub stderr_lines : List Bytes

abbrev pub no_lines : LineBuffer
no_lines = record { stdout_lines = []; stderr_lines = [] }

pub record GroupSink : Type 0 where
  pub out : Bytes
  pub buffers : List (Bytes × LineBuffer)

pub stage_started : Bytes → GroupSink → GroupSink
stage_started stage s = record s { buffers = erase stage s.buffers }

pub emplace : Channel → Bytes → LineBuffer → LineBuffer
emplace stdout text b = record b { stdout_lines = b.stdout_lines ++ text ∷ [] }
emplace stderr text b = record b { stderr_lines = b.stderr_lines ++ text ∷ [] }

pub line : Bytes → Channel → Bytes → GroupSink → GroupSink
line stage channel text s = record s {
  buffers = store stage (emplace channel text (buffer_of no_lines stage s.buffers)) s.buffers;
}

-- Each line with a line break behind it.
pub ended : List Bytes → Bytes
ended [] = []
ended (l ∷ lines) = l ++ 10 ∷ ended lines

-- The normalized error, or the raw lines of stderr where there is none.
pub errors : Bytes → List Bytes → Bytes
errors message lines = if length message == 0 then ended lines else message ++ 10 ∷ []

pub block_of : Bytes → StageResult → LineBuffer → Bytes
block_of stage result b =
    codes "CLIENT "
    ++ (stage ++ 10 ∷ (ended b.stdout_lines ++ errors result.error_message b.stderr_lines))

pub stage_finished : Bytes → StageResult → GroupSink → GroupSink
stage_finished stage result s = record {
  out = s.out ++ block_of stage result (buffer_of no_lines stage s.buffers);
  buffers = erase stage s.buffers;
}
