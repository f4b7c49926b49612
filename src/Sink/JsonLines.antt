-- ===== src/Sink/JsonLines.antt =====
-- src/sink/json_sink.cpp: JSON Lines, an object for each stage. `out` is what is written.
pub mod Objects
pub mod Laws
mod Tests
use pipe_shell_x.Base.{
  ℕ, zero, suc, ◌+◌, [], ◌∷◌, ◌++◌, List, Bool, true, false, Bytes, codes, length, ◌==◌,
  if◌then◌else◌,
}
use pipe_shell_x.Json.{quote, boolean}
use pipe_shell_x.Pipeline.Parser.{digits}
use pipe_shell_x.Sink.{
  Channel, stdout, stderr, StageResult, RunSummary, decimal, buffer_of, erase, store,
}

pub record TextBuffer : Type 0 where
  pub stdout_text : Bytes
  pub stderr_text : Bytes

abbrev pub no_text : TextBuffer
no_text = record { stdout_text = []; stderr_text = [] }

pub record JsonSink : Type 0 where
  pub out : Bytes
  pub buffers : List (Bytes × TextBuffer)

-- `appendLine`
pub append_line : Bytes → Bytes → Bytes
append_line text line = (if length text == 0 then text else text ++ 10 ∷ []) ++ line

pub stage_started : Bytes → JsonSink → JsonSink
stage_started stage s = record s { buffers = erase stage s.buffers }

pub with_line : Channel → Bytes → TextBuffer → TextBuffer
with_line stdout text b = record b { stdout_text = append_line b.stdout_text text }
with_line stderr text b = record b { stderr_text = append_line b.stderr_text text }

pub line : Bytes → Channel → Bytes → JsonSink → JsonSink
line stage channel text s = record s {
  buffers = store stage (with_line channel text (buffer_of no_text stage s.buffers)) s.buffers;
}

-- A member of an object, behind what separates it, and the rest.
pub member : ℕ → Bytes → Bytes → Bytes → Bytes
member separator key value rest = separator ∷ (quote key ++ (58 ∷ (value ++ rest)))

pub object_of : Bytes → StageResult → TextBuffer → Bytes
object_of stage result b = member 123 (codes "stage") (quote stage) (
    member 44 (codes "exit") (decimal result.exit_code) (
      member 44 (codes "timed_out") (boolean result.timed_out) (
        member 44 (codes "error") (quote result.error_message) (
          member 44 (codes "dropped") (digits (suc result.dropped_bytes) result.dropped_bytes) (
            member 44 (codes "stdout") (quote b.stdout_text)
              (member 44 (codes "stderr") (quote b.stderr_text) (codes "}")))))))

pub stage_finished : Bytes → StageResult → JsonSink → JsonSink
stage_finished stage result s = record {
  out = s.out ++ object_of stage result (buffer_of no_text stage s.buffers) ++ 10 ∷ [];
  buffers = erase stage s.buffers;
}

pub summary_of : RunSummary → Bytes
summary_of summary = member 123 (codes "summary") (codes "true") (
    member 44 (codes "stages") (digits (suc summary.stages) summary.stages) (
      member 44 (codes "succeeded") (digits (suc summary.succeeded) summary.succeeded) (
        member 44 (codes "failed") (digits (suc summary.failed) summary.failed) (
          member 44 (codes "dropped") (digits (suc summary.dropped_bytes) summary.dropped_bytes)
            (member 44 (codes "cancelled") (boolean summary.cancelled) (codes "}"))))))

pub run_finished : RunSummary → JsonSink → JsonSink
run_finished summary s = record s { out = s.out ++ summary_of summary ++ 10 ∷ [] }
