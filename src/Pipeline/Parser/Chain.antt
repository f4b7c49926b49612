-- ===== src/Pipeline/Parser/Chain.antt =====
-- What a pipe spec that is accepted stands for: a chain of commands.
use pipe_shell_x.Base.{
  ℕ, zero, suc, ◌≡◌, ◌<◌, refl, ap, ◌∙◌, inl, inr, [], ◌∷◌, ◌++◌, List, Bool, true, false, not,
  ◌&&◌, Bytes, length, ◌==◌, All, arith, Bool-cases,
}
use pipe_shell_x.Pipeline.Parser.Quotes.{now, split_cuts, split_goes_on, split-some}
use pipe_shell_x.Pipeline.Parser.Stages.{Spelled, run_on, solid_bytes}
use pipe_shell_x.Pipeline.{Stage, Edge, Pipeline}
use pipe_shell_x.Pipeline.Parser.{
  bar, is_space, tokenize, onto_first, split, stage_id, edges_into, trim,
}

-- The segments with a bar between each two.
pub joined : List Bytes → Bytes
joined [] = []
joined (segment ∷ []) = segment
joined (segment ∷ (next ∷ segments)) = segment ++ bar ∷ joined (next ∷ segments)

joined-onto_first :
    (c : ℕ) (segments : List Bytes) → joined (onto_first c segments) ≡ c ∷ joined segments
unfolding joined onto_first
joined-onto_first c [] = refl
joined-onto_first c (segment ∷ []) = refl
joined-onto_first c (segment ∷ (next ∷ segments)) = refl

joined-bar :
    (c : ℕ) (segments : List Bytes)
    → (c == bar) ≡ true
    → 0 < length segments
    → joined ([] ∷ segments) ≡ c ∷ joined segments
unfolding joined
joined-bar c [] e some_left = absurd (omega arith)
joined-bar c (segment ∷ segments) e some_left =
    ap (λ d. d ∷ joined (segment ∷ segments)) (ground (arith, e))

is_bar : (a b : Bool) → (a && b) ≡ true → a ≡ true
is_bar true b e = refl
is_bar false b e = e

-- The split loses nothing: the segments with the bars between them are the spec.
pub joined-split : (q : Bool) (spec : Bytes) → joined (split q spec).1 ≡ spec
unfolding split joined
joined-split q [] = refl
joined-split q (c ∷ spec) = elim (Bool-cases ((c == bar) && not q)) [
  | inl e ↦
      ap joined (split_cuts q c spec e)
      ∙ joined-bar c (split (now q c) spec).1 (is_bar (c == bar) (not q) e)
          (split-some (now q c) spec)
      ∙ ap (λ w. c ∷ w) (joined-split (now q c) spec)
  | inr e ↦
      ap joined (split_goes_on q c spec e)
      ∙ joined-onto_first c (split (now q c) spec).1
      ∙ ap (λ w. c ∷ w) (joined-split (now q c) spec)
]

-- A word of a command.
pub record IsWord (w : Bytes) : Type 0 where
  pub some : 0 < length w
  pub solid : All (λ c. is_space c ≡ false) w

pub record HasCommand (s : Stage) : Type 0 where
  pub some : 0 < length s.argv
  pub words : All IsWord s.argv

-- The ids of `k` stages from `idx` on, and the edges into them.
pub ids_from : ℕ → ℕ → List Bytes
ids_from idx zero = []
ids_from idx (suc k) = stage_id idx ∷ ids_from (suc idx) k

pub edges_from : ℕ → ℕ → List Edge
edges_from idx zero = []
edges_from idx (suc k) = edges_into idx ++ edges_from (suc idx) k

pub ids_of : List Stage → List Bytes
ids_of [] = []
ids_of (s ∷ stages) = s.id ∷ ids_of stages

-- The stage of a segment: its placement and the words of its command are those that the segment spells.
pub record IsStage (segment : Bytes) (s : Stage) : Type 0 where
  pub command : Bytes
  pub spelled : Spelled (trim segment) command s.placement
  pub argv : s.argv ≡ tokenize command
  pub whole : run_on s.argv ≡ solid_bytes command
  pub proper : HasCommand s

abbrev pub AreStages : List Bytes → List Stage → Type 0
AreStages [] [] = Unit
AreStages [] (s ∷ stages) = ⊥
AreStages (segment ∷ segments) [] = ⊥
AreStages (segment ∷ segments) (s ∷ stages) = IsStage segment s × AreStages segments stages

pub record IsChain (idx : ℕ) (segments : List Bytes) (p : Pipeline) : Type 0 where
  pub ids : ids_of p.stages ≡ ids_from idx (length segments)
  pub edges : p.edges ≡ edges_from idx (length segments)
  pub stages : AreStages segments p.stages
