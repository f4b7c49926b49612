-- ===== src/Pipeline/Parser.antt =====
-- src/pipeline/parser.cpp: the pipe spec of the command line, `a @ x | 'b c' @ y`. A text is the list of
-- its bytes.
mod Quotes
mod Stages
pub mod Chain
pub mod Tests
use Prim.Native.String.{String}
use pipe_shell_x.Base.{
  ℕ, zero, suc, ◌+◌, ◌/◌, ◌%◌, [], ◌∷◌, ◌++◌, List, Bool, true, false, not, ◌&&◌, ◌||◌, Bytes,
  length, leb, ltb, ◌==◌, if◌then◌else◌,
}
use pipe_shell_x.Base.Errors.{Result, ok, err, error_of, invalid_argument, ◌>>=◌}
use pipe_shell_x.Text.{has_any, span_to, trim_by}
use pipe_shell_x.Pipeline.{Stage, Edge, Pipeline}

abbrev quote : ℕ
quote = 39

abbrev bar : ℕ
bar = 124

abbrev at_sign : ℕ
at_sign = 64

pub invalid {ℓ} : {A : Type ℓ} → String → Result A
invalid what = err (error_of invalid_argument what)

-- `std::isspace` in the "C" locale.
unfoldable pub is_space : ℕ → Bool
is_space c = (c == 32) || (leb 9 c && leb c 13)

pub trim : Bytes → Bytes
trim s = trim_by is_space s

-- `tokenize`: the words, and the word that the first byte would extend.
pub words_after : Bytes → Bytes × List Bytes
words_after [] = ([], [])
words_after (c ∷ s) =
    let (word, words) = words_after s in
    if not (is_space c)
    then (c ∷ word, words)
    else if length word == 0
    then ([], words)
    else ([], word ∷ words)

pub tokenize : Bytes → List Bytes
tokenize command =
    let (word, words) = words_after command in if length word == 0 then words else word ∷ words

pub onto_first : ℕ → List Bytes → List Bytes
onto_first c [] = (c ∷ []) ∷ []
onto_first c (segment ∷ segments) = (c ∷ segment) ∷ segments

-- The split on `|` outside of quotes: whether a quote is open at the end, and the segments.
pub split : Bool → Bytes → Bool × List Bytes
split in_quote [] = (in_quote, [] ∷ [])
split in_quote (c ∷ spec) =
    let now = if c == quote then not in_quote else in_quote in
    let (open_at_end, segments) = split now spec in
    if (c == bar) && not in_quote
    then (open_at_end, [] ∷ segments)
    else (open_at_end, onto_first c segments)

-- The placement behind a quoted command.
pub placement_of : Bytes → Result Bytes
placement_of [] = ok []
placement_of (c ∷ rest) =
    let placement = trim rest in
    if not (c == at_sign)
    then invalid "expected @placement after a quoted command"
    else if length placement == 0
    then invalid "empty placement after @"
    else ok placement

-- The command before the closing quote, and what is from that on.
pub quoted_with : Bytes → Bytes → Result (Bytes × Bytes)
quoted_with command [] = invalid "unterminated quote in pipe spec"
quoted_with command (_ ∷ behind) =
    placement_of (trim behind) >>= λ placement. ok (command, placement)

-- The command and the placement of a segment that starts with a quote, the quote taken off.
pub quoted_stage : Bytes → Result (Bytes × Bytes)
quoted_stage seg = let (command, rest) = span_to (λ c. c == quote) seg in quoted_with command rest

-- The command before the first `@`, and what is from that on.
pub bare_with : Bytes → Bytes → Result (Bytes × Bytes)
bare_with command [] = ok (command, [])
bare_with command (_ ∷ placement) =
    if length placement == 0 then invalid "empty placement after @" else ok (command, placement)

-- The command and the placement of a segment without a quote.
pub bare_stage : Bytes → Result (Bytes × Bytes)
bare_stage seg =
    let (command, rest) = span_to (λ c. c == at_sign) seg in
    if has_any (32 ∷ 9 ∷ []) seg
    then invalid "unquoted command contains spaces; wrap it in single quotes"
    else bare_with command rest

pub command_and_placement : Bytes → Result (Bytes × Bytes)
command_and_placement [] = invalid "empty stage in pipe spec"
command_and_placement (c ∷ seg) = if c == quote then quoted_stage seg else bare_stage (c ∷ seg)

-- The decimal digits of a number; a number has fewer of them than itself plus one.
unfoldable pub digits : ℕ → ℕ → Bytes
digits zero n = []
digits (suc fuel) n =
    let more = digits fuel (n / 10) in
    if ltb n 10 then (48 + n) ∷ [] else more ++ (48 + n % 10) ∷ []

-- `"s" + std::to_string(idx)`
pub stage_id : ℕ → Bytes
stage_id idx = 115 ∷ digits (suc idx) idx

pub stage_with : ℕ → Bytes → Bytes → Result Stage
stage_with idx command placement =
    let argv = tokenize command in
    if length argv == 0
    then invalid "empty command in pipe spec"
    else ok (record { id = stage_id idx; argv = argv; placement = placement })

pub stage_of : ℕ → Bytes → Result Stage
stage_of idx segment =
    command_and_placement (trim segment) >>= λ parts. stage_with idx parts.0 parts.1

-- The edge into the stage `idx`.
pub edges_into : ℕ → List Edge
edges_into zero = []
edges_into (suc before) = record { from = stage_id before; to = stage_id (suc before) } ∷ []

pub with_stage : ℕ → Stage → Pipeline → Pipeline
with_stage idx stage p = record { stages = stage ∷ p.stages; edges = edges_into idx ++ p.edges }

-- The loop over the segments from `idx` on.
pub stages_from : ℕ → List Bytes → Result Pipeline
stages_from idx [] = ok (record { stages = []; edges = [] })
stages_from idx (segment ∷ segments) = stage_of idx segment >>= λ stage.
    stages_from (suc idx) segments >>= λ p. ok (with_stage idx stage p)

-- `parsePipeSpec`
pub parse_pipe_spec : Bytes → Result Pipeline
parse_pipe_spec spec =
    let (in_quote, segments) = split false spec in
    if in_quote then invalid "unterminated quote in pipe spec" else stages_from 0 segments
