-- ===== src/Sink/JsonLines/Laws.antt =====
-- The output of the JSON sink, against the calls that it gets.
use pipe_shell_x.Base.{
  ℕ, suc, ◌≡◌, refl, sym, ap, ap₂, ◌∙◌, [], ◌∷◌, ◌++◌, List, some, true, false, Bytes, length, ◌==◌,
  if◌then◌else◌, arith, append_assoc,
}
use pipe_shell_x.Json.{boolean}
use pipe_shell_x.Json.Read.{Printable}
use pipe_shell_x.Json.Objects.{read_object}
use pipe_shell_x.Sink.{Channel, stdout, stderr, StageResult, RunSummary, buffer_of, erase}
use pipe_shell_x.Sink.Buffers.{
  Call, starts, puts, finishes, is_same, since, after, since-after, buffer_of-erase,
}
use pipe_shell_x.Sink.JsonLines.Objects.{
  digits-Printable, boolean-Printable, member-Printable, members_of, read_object-object_of,
}
use pipe_shell_x.Sink.JsonLines.{
  TextBuffer, no_text, JsonSink, append_line, stage_started, with_line, line, object_of,
  stage_finished, summary_of, run_finished,
}

-- The lines with a line break between each two.
pub joined : List Bytes → Bytes
joined [] = []
joined (l ∷ []) = l
joined (l ∷ m ∷ lines) = l ++ 10 ∷ joined (m ∷ lines)

-- The lines from the first one that is not empty on.
pub from_filled : List Bytes → List Bytes
from_filled [] = []
from_filled ([] ∷ lines) = from_filled lines
from_filled ((c ∷ l) ∷ lines) = (c ∷ l) ∷ lines

-- The calls of a run.
pub play : List Call → JsonSink → JsonSink
play [] s = s
play (starts at ∷ calls) s = play calls (stage_started at s)
play (puts at on text ∷ calls) s = play calls (line at on text s)
play (finishes at result ∷ calls) s = play calls (stage_finished at result s)

pub appended : Bytes → List Bytes → Bytes
appended text [] = text
appended text (l ∷ lines) = appended (append_line text l) lines

joined-onto :
    (u l : Bytes) (lines : List Bytes) → joined ((u ++ l) ∷ lines) ≡ u ++ joined (l ∷ lines)
unfolding joined
joined-onto u l [] = refl
joined-onto u l (m ∷ lines) = append_assoc u l (10 ∷ joined (m ∷ lines))

append_line-filled :
    (c : ℕ) (text l : Bytes) → append_line (c ∷ text) l ≡ c ∷ ((text ++ 10 ∷ []) ++ l)
unfolding append_line
append_line-filled c text l =
    let filled : (suc (length text) == 0) ≡ false = ground arith in rw (filled) refl

appended-filled :
    (c : ℕ) (text : Bytes) (lines : List Bytes)
    → appended (c ∷ text) lines ≡ joined ((c ∷ text) ∷ lines)
unfolding appended joined
appended-filled c text [] = refl
appended-filled c text (l ∷ lines) =
    ap (λ t. appended t lines) (append_line-filled c text l)
    ∙ appended-filled c ((text ++ 10 ∷ []) ++ l) lines
    ∙ joined-onto (c ∷ (text ++ 10 ∷ [])) l lines
    ∙ ap (λ t. c ∷ t) (append_assoc text (10 ∷ []) (joined (l ∷ lines)))

appended-joined : (lines : List Bytes) → appended [] lines ≡ joined (from_filled lines)
unfolding appended joined from_filled append_line
appended-joined [] = refl
appended-joined ([] ∷ lines) = appended-joined lines
appended-joined ((c ∷ l) ∷ lines) = appended-filled c l lines

appended-snoc :
    (text l : Bytes) (lines : List Bytes)
    → appended text (lines ++ l ∷ []) ≡ append_line (appended text lines) l
unfolding appended
appended-snoc text l [] = refl
appended-snoc text l (m ∷ lines) = appended-snoc (append_line text m) l lines

pub text_on : Channel → TextBuffer → Bytes
text_on stdout b = b.stdout_text
text_on stderr b = b.stderr_text

abbrev pub held_by : Bytes → JsonSink → TextBuffer
held_by stage s = buffer_of no_text stage s.buffers

text_on-with_line :
    (channel : Channel) (lines : List Bytes) (b : TextBuffer) (on : Channel) (text : Bytes)
    → text_on channel b ≡ appended [] lines
    → text_on channel (with_line on text b)
      ≡ appended [] (if is_same on channel then lines ++ text ∷ [] else lines)
unfolding text_on with_line is_same
text_on-with_line stdout lines b stdout text e =
    ap (λ t. append_line t text) e ∙ sym (appended-snoc [] text lines)
text_on-with_line stdout lines b stderr text e = e
text_on-with_line stderr lines b stdout text e = e
text_on-with_line stderr lines b stderr text e =
    ap (λ t. append_line t text) e ∙ sym (appended-snoc [] text lines)

play-buffers :
    (calls : List Call) (s : JsonSink)
    → (play calls s).buffers ≡ after no_text with_line calls s.buffers
unfolding play after line stage_started stage_finished
play-buffers [] s = refl
play-buffers (starts at ∷ calls) s = play-buffers calls (stage_started at s)
play-buffers (puts at on text ∷ calls) s = play-buffers calls (line at on text s)
play-buffers (finishes at result ∷ calls) s = play-buffers calls (stage_finished at result s)

bare_text : (channel : Channel) → text_on channel no_text ≡ appended [] []
unfolding text_on appended
bare_text stdout = refl
bare_text stderr = refl

-- The text that is held for a stage, since it was started.
text_on-since :
    (stage : Bytes) (channel : Channel) (calls : List Call) (s : JsonSink)
    → text_on channel (held_by stage (play calls (stage_started stage s)))
      ≡ joined (from_filled (since stage channel calls []))
unfolding stage_started
text_on-since stage channel calls s =
    ap (λ bs. text_on channel (buffer_of no_text stage bs))
      (play-buffers calls (stage_started stage s))
    ∙ since-after no_text with_line (λ lines b. text_on channel b ≡ appended [] lines) stage channel
        (bare_text channel) (text_on-with_line channel) calls [] (erase stage s.buffers)
        (ap (text_on channel) (buffer_of-erase no_text stage s.buffers) ∙ bare_text channel)
    ∙ appended-joined (since stage channel calls [])

-- The object of a stage reads as the lines that the stage has put out on each channel since it was last
-- started or finished, whatever other stages do in between: joined by line breaks, and from the first line
-- that is not empty on, so that empty lines at the front are lost.
pub stage_started-play :
    (stage : Bytes) (result : StageResult) (calls : List Call) (s : JsonSink)
    → let ran = play calls (stage_started stage s) in
      (object : Bytes) × ((stage_finished stage result ran).out ≡ ran.out ++ object ++ 10 ∷ [])
      × (read_object object
          ≡ some (
              members_of stage result
                (joined (from_filled (since stage stdout calls [])))
                (joined (from_filled (since stage stderr calls [])))))
unfolding stage_finished text_on
stage_started-play stage result calls s =
    let ran = play calls (stage_started stage s) in
    let held = held_by stage ran in
    (
      object_of stage result held,
      refl,
      read_object-object_of stage result held
          ∙ ap₂ (λ o e. some (members_of stage result o e)) (text_on-since stage stdout calls s)
              (text_on-since stage stderr calls s),
    )

-- The summary of a run is one line, too.
pub run_finished-Printable :
    (summary : RunSummary) (s : JsonSink)
    → (object : Bytes) × (Printable object)
      × ((run_finished summary s).out ≡ s.out ++ object ++ 10 ∷ [])
unfolding run_finished summary_of boolean
run_finished-Printable summary s = (
  summary_of summary,
  member-Printable 123 _ _ _ (omega arith) (boolean-Printable true) (
      member-Printable 44 _ _ _ (omega arith) (digits-Printable (suc summary.stages) summary.stages)
        (member-Printable 44 _ _ _ (omega arith)
          (digits-Printable (suc summary.succeeded) summary.succeeded)
          (member-Printable 44 _ _ _ (omega arith)
            (digits-Printable (suc summary.failed) summary.failed)
            (member-Printable 44 _ _ _ (omega arith)
              (digits-Printable (suc summary.dropped_bytes) summary.dropped_bytes)
              (member-Printable 44 _ _ _ (omega arith) (boolean-Printable summary.cancelled)
                (omega arith, tt)))))),
  refl,
)
