-- ===== src/Sink/GroupLines/Laws.antt =====
-- The output of the group sink, against the calls that it gets.
use pipe_shell_x.Base.{
  ◌≡◌, refl, sym, ap, ap₂, ◌∙◌, [], ◌∷◌, ◌++◌, List, Bytes, codes, length, ◌==◌, if◌then◌else◌,
  append_assoc, append-nil, Bool-cases, inl, inr,
}
use pipe_shell_x.Sink.{Channel, stdout, stderr, StageResult, buffer_of, erase}
use pipe_shell_x.Sink.Buffers.{
  Call, starts, puts, finishes, is_same, since, after, since-after, buffer_of-erase,
}
use pipe_shell_x.Sink.GroupLines.{
  LineBuffer, no_lines, GroupSink, stage_started, emplace, line, ended, errors, block_of,
  stage_finished,
}

-- A text of lines, each with a line break behind it.
pub lines_text : List Bytes → Bytes
lines_text [] = []
lines_text (l ∷ lines) = (l ++ 10 ∷ []) ++ lines_text lines

pub lines_on : Channel → LineBuffer → List Bytes
lines_on stdout b = b.stdout_lines
lines_on stderr b = b.stderr_lines

abbrev pub held_by : Bytes → GroupSink → LineBuffer
held_by stage s = buffer_of no_lines stage s.buffers

-- The calls of a run.
pub play : List Call → GroupSink → GroupSink
play [] s = s
play (starts at ∷ calls) s = play calls (stage_started at s)
play (puts at on text ∷ calls) s = play calls (line at on text s)
play (finishes at result ∷ calls) s = play calls (stage_finished at result s)

lines_on-emplace :
    (channel : Channel) (lines : List Bytes) (b : LineBuffer) (on : Channel) (text : Bytes)
    → lines_on channel b ≡ lines
    → lines_on channel (emplace on text b)
      ≡ (if is_same on channel then lines ++ text ∷ [] else lines)
unfolding lines_on emplace is_same
lines_on-emplace stdout lines b stdout text e = ap (λ ls. ls ++ text ∷ []) e
lines_on-emplace stdout lines b stderr text e = e
lines_on-emplace stderr lines b stdout text e = e
lines_on-emplace stderr lines b stderr text e = ap (λ ls. ls ++ text ∷ []) e

play-buffers :
    (calls : List Call) (s : GroupSink)
    → (play calls s).buffers ≡ after no_lines emplace calls s.buffers
unfolding play after line stage_started stage_finished
play-buffers [] s = refl
play-buffers (starts at ∷ calls) s = play-buffers calls (stage_started at s)
play-buffers (puts at on text ∷ calls) s = play-buffers calls (line at on text s)
play-buffers (finishes at result ∷ calls) s = play-buffers calls (stage_finished at result s)

no_lines_on : (channel : Channel) → lines_on channel no_lines ≡ []
unfolding lines_on
no_lines_on stdout = refl
no_lines_on stderr = refl

-- The lines that are held for a stage, since it was started.
lines_on-since :
    (stage : Bytes) (channel : Channel) (calls : List Call) (s : GroupSink)
    → lines_on channel (held_by stage (play calls (stage_started stage s)))
      ≡ since stage channel calls []
unfolding stage_started
lines_on-since stage channel calls s =
    ap (λ bs. lines_on channel (buffer_of no_lines stage bs))
      (play-buffers calls (stage_started stage s))
    ∙ since-after no_lines emplace (λ lines b. lines_on channel b ≡ lines) stage channel
        (no_lines_on channel) (lines_on-emplace channel) calls [] (erase stage s.buffers)
        (ap (lines_on channel) (buffer_of-erase no_lines stage s.buffers) ∙ no_lines_on channel)

ended-lines_text : (lines : List Bytes) → ended lines ≡ lines_text lines
unfolding ended lines_text
ended-lines_text [] = refl
ended-lines_text (l ∷ lines) =
    ap (λ t. l ++ 10 ∷ t) (ended-lines_text lines)
    ∙ sym (append_assoc l (10 ∷ []) (lines_text lines))

lines_text-append :
    (front behind : List Bytes)
    → lines_text (front ++ behind) ≡ lines_text front ++ lines_text behind
unfolding lines_text
lines_text-append [] behind = refl
lines_text-append (l ∷ front) behind =
    ap (λ t. (l ++ 10 ∷ []) ++ t) (lines_text-append front behind)
    ∙ sym (append_assoc (l ++ 10 ∷ []) (lines_text front) (lines_text behind))

errors-lines_text :
    (message : Bytes) (lines : List Bytes)
    → errors message lines ≡ lines_text (if length message == 0 then lines else message ∷ [])
unfolding errors lines_text
errors-lines_text message lines = elim (Bool-cases (length message == 0)) [
  | inl bare ↦ rw (bare) (ended-lines_text lines)
  | inr told ↦ rw (told) (sym (append-nil (message ++ 10 ∷ [])))
]

block_of-lines_text :
    (stage : Bytes) (result : StageResult) (b : LineBuffer)
    → block_of stage result b
      ≡ lines_text (
          (codes "CLIENT " ++ stage)
          ∷ (b.stdout_lines
              ++ (if length result.error_message == 0
                  then b.stderr_lines
                  else result.error_message ∷ [])))
unfolding block_of lines_text
block_of-lines_text stage result b =
    let tail =
      if length result.error_message == 0 then b.stderr_lines else result.error_message ∷ [] in
    let body : ended b.stdout_lines ++ errors result.error_message b.stderr_lines
        ≡ lines_text (b.stdout_lines ++ tail) =
      ap₂ (λ f r. f ++ r) (ended-lines_text b.stdout_lines)
        (errors-lines_text result.error_message b.stderr_lines)
      ∙ sym (lines_text-append b.stdout_lines tail) in
    ap (λ t. codes "CLIENT " ++ (stage ++ 10 ∷ t)) body
    ∙ sym (append_assoc (codes "CLIENT " ++ stage) (10 ∷ []) (lines_text (b.stdout_lines ++ tail)))

-- Whatever other stages do in between, a stage that finishes is written as one block of lines, behind all
-- that is written by then: its name, the lines that it has put out on stdout since it was last started or
-- finished, in their order, and its error, or where that is empty the lines on stderr. Nothing stays held
-- for it.
pub stage_finished-play :
    (stage : Bytes) (result : StageResult) (calls : List Call) (s : GroupSink)
    → let ran = play calls (stage_started stage s) in
      let done = stage_finished stage result ran in
      (done.out
        ≡ ran.out
          ++ lines_text (
              (codes "CLIENT " ++ stage)
              ∷ (since stage stdout calls []
                  ++ (if length result.error_message == 0
                      then since stage stderr calls []
                      else result.error_message ∷ []))))
      × (held_by stage done ≡ no_lines)
unfolding stage_finished lines_on
stage_finished-play stage result calls s =
    let ran : GroupSink = play calls (stage_started stage s) in
    (
      ap (λ t. ran.out ++ t)
          (block_of-lines_text stage result (held_by stage ran)
            ∙ ap₂
                (λ (o e : List Bytes). lines_text (
                  (codes "CLIENT " ++ stage)
                  ∷ (o
                      ++ (if length result.error_message == 0
                          then e
                          else result.error_message ∷ []))))
                (lines_on-since stage stdout calls s) (lines_on-since stage stderr calls s)),
      buffer_of-erase no_lines stage ran.buffers,
    )
