-- ===== src/Pipeline/Planner/Index.antt =====
-- The index of the stages: what it holds, and which stages it takes.
use pipe_shell_x.Base.{
  ℕ, suc, ◌+◌, ◌≡◌, ◌≤◌, ◌<◌, refl, sym, ap, ◌∙◌, inl, inr, [], ◌∷◌, ◌++◌, List, none, some, false,
  Bytes, length, ◌==◌, arith, Bool-cases, length-append, some-injective, append_assoc, append-nil,
  All, Option-cases,
}
use pipe_shell_x.Base.Errors.{Error, ok, err, ok-injective}
use pipe_shell_x.Text.{equal}
use pipe_shell_x.Pipeline.{Stage}
use pipe_shell_x.Pipeline.Planner.{Positions, position_of, index_stages, invalid}

pub err-not_ok {ℓ} : {A : Type ℓ} {failure : Error} {a : A} → ¬ (err failure ≡ ok a)
err-not_ok e = cc

some-not_none : {a : ℕ} → ¬ (some a ≡ none)
some-not_none e = cc

-- The ids with their positions, counted from `k`.
abbrev pub entries : ℕ → List Stage → Positions
entries k [] = []
entries k (s ∷ ss) = (s.id, k) ∷ entries (suc k) ss

pub entries-bounds :
    (id : Bytes) (k : ℕ) (ss : List Stage) (i : ℕ)
    → position_of id (entries k ss) ≡ some i
    → (k ≤ i) × (i < k + length ss)
unfolding position_of
entries-bounds id k [] i e = cc
entries-bounds id k (s ∷ ss) i e = elim (Bool-cases (equal s.id id)) [
  | inl same ↦
      let at : k ≡ i = some-injective (simp (same) at e) in (omega (arith, at), omega (arith, at))
  | inr other ↦
      let (low, high) = entries-bounds id (suc k) ss i (simp (other) at e) in
      (omega (arith, low), omega (arith, high))
]

-- What the checks of a stage ask for.
pub record StageOk (m : Positions) (s : Stage) : Type 0 where
  pub named : 0 < length s.id
  pub runs : 0 < length s.argv
  pub fresh : position_of s.id m ≡ none

pub index-StageOk :
    (m : Positions) (s : Stage) (ss : List Stage) (m' : Positions)
    → index_stages m (s ∷ ss) ≡ ok m'
    → StageOk m s × (index_stages (m ++ (s.id, length m) ∷ []) ss ≡ ok m')
unfolding index_stages invalid
index-StageOk m s ss m' e = elim (Bool-cases (length s.id == 0)) [
  | inl empty ↦ absurd (err-not_ok (simp (empty) at e))
  | inr named ↦ elim (Bool-cases (length s.argv == 0)) [
    | inl empty ↦ absurd (err-not_ok (simp (named, empty) at e))
    | inr runs ↦ elim (Option-cases (position_of s.id m)) [
      | inl fresh ↦ (
        record { named = ground (arith, named); runs = ground (arith, runs); fresh = fresh },
        simp (named, runs, fresh) at e,
      )
      | inr (at, found) ↦ absurd (err-not_ok (simp (named, runs, found) at e))
    ]
  ]
]

StageOk-index :
    (m : Positions) (s : Stage) (ss : List Stage)
    → StageOk m s
    → index_stages m (s ∷ ss) ≡ index_stages (m ++ (s.id, length m) ∷ []) ss
unfolding index_stages
StageOk-index m s ss is =
    let named : (length s.id == 0) ≡ false = ground (arith, is.named) in
    let runs : (length s.argv == 0) ≡ false = ground (arith, is.runs) in
    simp (named, runs, is.fresh) refl

longer : (m : Positions) (s : Stage) → length (m ++ (s.id, length m) ∷ []) ≡ suc (length m)
longer m s = omega (arith, length-append m ((s.id, length m) ∷ []))

moved :
    (m : Positions) (s : Stage) (ss : List Stage)
    → (m ++ (s.id, length m) ∷ []) ++ entries (length (m ++ (s.id, length m) ∷ [])) ss
      ≡ m ++ entries (length m) (s ∷ ss)
moved m s ss =
    ap (λ k. (m ++ (s.id, length m) ∷ []) ++ entries k ss) (longer m s)
    ∙ append_assoc m ((s.id, length m) ∷ []) (entries (suc (length m)) ss)

-- The index is the ids with their positions.
pub index_stages-entries :
    (m : Positions) (ss : List Stage) (m' : Positions)
    → index_stages m ss ≡ ok m'
    → m ++ entries (length m) ss ≡ m'
unfolding index_stages
index_stages-entries m [] m' e = append-nil m ∙ ok-injective e
index_stages-entries m (s ∷ ss) m' e =
    let (_, rest) = index-StageOk m s ss m' e in
    sym (moved m s ss) ∙ index_stages-entries (m ++ (s.id, length m) ∷ []) ss m' rest

-- No two stages have the same id.
abbrev pub Distinct : List Stage → Type 0
Distinct [] = Unit
Distinct (s ∷ ss) = All (λ t. equal s.id t.id ≡ false) ss × Distinct ss

abbrev pub Runs : Stage → Type 0
Runs s = (0 < length s.id) × (0 < length s.argv)

position_of-snoc :
    (id other : Bytes) (m : Positions) (k : ℕ)
    → position_of id (m ++ (other, k) ∷ []) ≡ none
    → (position_of id m ≡ none) × (equal other id ≡ false)
unfolding position_of
position_of-snoc id other [] k e = elim (Bool-cases (equal other id)) [
  | inl same ↦ absurd (some-not_none (simp (same) at e))
  | inr new ↦ (refl, new)
]
position_of-snoc id other ((at, i) ∷ m) k e = elim (Bool-cases (equal at id)) [
  | inl same ↦ absurd (some-not_none (simp (same) at e))
  | inr apart ↦
      let (was, new) = position_of-snoc id other m k (simp (apart) at e) in (rw (apart) was, new)
]

snoc-position_of :
    (id other : Bytes) (m : Positions) (k : ℕ)
    → position_of id m ≡ none
    → equal other id ≡ false
    → position_of id (m ++ (other, k) ∷ []) ≡ none
unfolding position_of
snoc-position_of id other [] k was new = rw (new) refl
snoc-position_of id other ((at, i) ∷ m) k was new = elim (Bool-cases (equal at id)) [
  | inl same ↦ absurd (some-not_none (simp (same) at was))
  | inr apart ↦ rw (apart) (snoc-position_of id other m k (simp (apart) at was) new)
]

-- What a pipeline whose stages are indexed is like, and the other way round.
abbrev Unknown : Positions → Stage → Type 0
Unknown m s = position_of s.id m ≡ none

split_known :
    (m : Positions) (s : Stage) (ss : List Stage)
    → All (Unknown (m ++ (s.id, length m) ∷ [])) ss
    → All (Unknown m) ss × All (λ t. equal s.id t.id ≡ false) ss
split_known m s [] known = (tt, tt)
split_known m s (t ∷ ss) (here, known) =
    let (was, new) = position_of-snoc t.id s.id m (length m) here in
    let (wases, news) = split_known m s ss known in ((was, wases), (new, news))

join_known :
    (m : Positions) (s : Stage) (ss : List Stage)
    → All (Unknown m) ss
    → All (λ t. equal s.id t.id ≡ false) ss
    → All (Unknown (m ++ (s.id, length m) ∷ [])) ss
join_known m s [] wases news = tt
join_known m s (t ∷ ss) (was, wases) (new, news) =
    (snoc-position_of t.id s.id m (length m) was new, join_known m s ss wases news)

pub index_stages-Distinct :
    (m : Positions) (ss : List Stage) (m' : Positions)
    → index_stages m ss ≡ ok m'
    → All Runs ss × (Distinct ss × All (Unknown m) ss)
unfolding index_stages
index_stages-Distinct m [] m' e = (tt, (tt, tt))
index_stages-Distinct m (s ∷ ss) m' e =
    let (is, rest) = index-StageOk m s ss m' e in
    let (run, (apart, known)) = index_stages-Distinct _ ss m' rest in
    let (was, new) = split_known m s ss known in
    (((is.named, is.runs), run), ((new, apart), (is.fresh, was)))

pub Distinct-index_stages :
    (m : Positions) (ss : List Stage)
    → All Runs ss
    → Distinct ss
    → All (Unknown m) ss
    → index_stages m ss ≡ ok (m ++ entries (length m) ss)
unfolding index_stages
Distinct-index_stages m [] run apart known = ap ok (sym (append-nil m))
Distinct-index_stages m (s ∷ ss) ((named, runs), run) (new, apart) (fresh, known) =
    StageOk-index m s ss (record { named = named; runs = runs; fresh = fresh })
    ∙ Distinct-index_stages (m ++ (s.id, length m) ∷ []) ss run apart (join_known m s ss known new)
    ∙ ap ok (moved m s ss)

pub Unknown-in_none : (ss : List Stage) → All (Unknown []) ss
unfolding position_of
Unknown-in_none [] = tt
Unknown-in_none (s ∷ ss) = (refl, Unknown-in_none ss)
