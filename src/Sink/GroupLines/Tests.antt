-- ===== src/Sink/GroupLines/Tests.antt =====
-- The group sink at a concrete run.
use pipe_shell_x.Base.{◌≡◌, [], ◌∷◌, ◌++◌, List, false, codes, length, ◌==◌, if◌then◌else◌}
use pipe_shell_x.Base.Int.{pos}
use pipe_shell_x.Sink.{stdout, stderr, StageResult}
use pipe_shell_x.Sink.Buffers.{Call, starts, puts, finishes, since}
use pipe_shell_x.Sink.GroupLines.{no_lines, GroupSink, stage_started, stage_finished}
use pipe_shell_x.Sink.GroupLines.Laws.{play, lines_text, held_by, stage_finished-play}

abbrev a_sink : GroupSink
a_sink = record { out = []; buffers = [] }

abbrev a_result : StageResult
a_result = record { exit_code = pos 1; timed_out = false; error_message = []; dropped_bytes = 0 }

-- Two stages take turns, and the other one finishes first.
abbrev calls : List Call
calls =
    puts (codes "a") stdout []
    ∷ starts (codes "b")
    ∷ puts (codes "b") stdout (codes "x")
    ∷ puts (codes "a") stderr (codes "y")
    ∷ finishes (codes "b") a_result
    ∷ []

stage_finished-play_example :
    let ran = play calls (stage_started (codes "a") a_sink) in
    let done = stage_finished (codes "a") a_result ran in
    (done.out
      ≡ ran.out
        ++ lines_text (
            (codes "CLIENT " ++ codes "a")
            ∷ (since (codes "a") stdout calls []
                ++ (if length a_result.error_message == 0
                    then since (codes "a") stderr calls []
                    else a_result.error_message ∷ []))))
    × (held_by (codes "a") done ≡ no_lines)
stage_finished-play_example = stage_finished-play (codes "a") a_result calls a_sink
