-- ===== src/Sink/JsonLines/Tests.antt =====
-- The JSON sink at a concrete run, and JSON strings.
use pipe_shell_x.Base.{◌≡◌, [], ◌∷◌, ◌++◌, List, some, false, Bytes, codes}
use pipe_shell_x.Base.Int.{negsuc}
use pipe_shell_x.Json.{quote}
use pipe_shell_x.Json.Read.{read_string, Printable, quote-read_string}
use pipe_shell_x.Json.Objects.{read_object}
use pipe_shell_x.Sink.{stdout, stderr, StageResult}
use pipe_shell_x.Sink.Buffers.{Call, starts, puts, finishes, since}
use pipe_shell_x.Sink.JsonLines.{JsonSink, stage_started, stage_finished}
use pipe_shell_x.Sink.JsonLines.Objects.{members_of}
use pipe_shell_x.Sink.JsonLines.Laws.{play, joined, from_filled, stage_started-play}

abbrev a_sink : JsonSink
a_sink = record { out = []; buffers = [] }

abbrev a_result : StageResult
a_result = record {
  exit_code = negsuc 0;
  timed_out = false;
  error_message = [];
  dropped_bytes = 12;
}

-- A blank line comes first, and another stage finishes in between.
abbrev calls : List Call
calls =
    puts (codes "a") stdout []
    ∷ starts (codes "b")
    ∷ puts (codes "b") stdout (codes "x")
    ∷ puts (codes "a") stdout (codes "y")
    ∷ finishes (codes "b") a_result
    ∷ []

stage_started-play_example :
    let ran = play calls (stage_started (codes "a") a_sink) in
    (object : Bytes) × ((stage_finished (codes "a") a_result ran).out
      ≡ ran.out ++ object ++ 10 ∷ [])
    × (read_object object
        ≡ some (
            members_of
              (codes "a")
              a_result
              (joined (from_filled (since (codes "a") stdout calls [])))
              (joined (from_filled (since (codes "a") stderr calls [])))))
stage_started-play_example = stage_started-play (codes "a") a_result calls a_sink

quote-read_string_example :
    (read_string (quote (34 ∷ 10 ∷ 1 ∷ [])) ≡ some (34 ∷ 10 ∷ 1 ∷ []))
    × Printable (quote (34 ∷ 10 ∷ 1 ∷ []))
quote-read_string_example = quote-read_string (34 ∷ 10 ∷ 1 ∷ [])
