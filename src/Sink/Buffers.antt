-- ===== src/Sink/Buffers.antt =====
-- The calls of `line` that sinks get, and the laws of `buffers_`.
use pipe_shell_x.Base.{
  ◌≡◌, refl, sym, ap, subst, ◌∙◌, ◌&&◌, ◌++◌, inl, inr, [], ◌∷◌, List, Bool, true, false, Bytes,
  Bool-cases, if◌then◌else◌,
}
use pipe_shell_x.Text.{equal}
use pipe_shell_x.Text.Lists.{equal-≡, equal_refl}
use pipe_shell_x.Sink.{Channel, stdout, stderr, StageResult, buffer_of, erase, store}

-- A call that a sink gets while a run goes on.
pub data Call : Type 0 where
  starts : Bytes → Call
  puts : Bytes → Channel → Bytes → Call
  finishes : Bytes → StageResult → Call

unfoldable pub is_same : Channel → Channel → Bool
is_same stdout stdout = true
is_same stdout stderr = false
is_same stderr stdout = false
is_same stderr stderr = true

-- The lines of a stage on a channel since the stage was last started or finished, behind `lines`.
pub since : Bytes → Channel → List Call → List Bytes → List Bytes
since stage channel [] lines = lines
since stage channel (starts at ∷ calls) lines =
    since stage channel calls (if equal at stage then [] else lines)
since stage channel (puts at on text ∷ calls) lines =
    since stage channel calls
      (if equal at stage && is_same on channel then lines ++ text ∷ [] else lines)
since stage channel (finishes at result ∷ calls) lines =
    since stage channel calls (if equal at stage then [] else lines)

module _ {ℓ} {B : Type ℓ} (fresh : B) where
  pub buffer_of-store :
      (stage : Bytes) (b : B) (buffers : List (Bytes × B))
      → buffer_of fresh stage (store stage b buffers) ≡ b
  unfolding buffer_of store
  buffer_of-store stage b buffers = rw (equal_refl stage) refl

  pub buffer_of-erase :
      (stage : Bytes) (buffers : List (Bytes × B))
      → buffer_of fresh stage (erase stage buffers) ≡ fresh
  unfolding buffer_of erase
  buffer_of-erase stage [] = refl
  buffer_of-erase stage ((other, b) ∷ buffers) = elim (Bool-cases (equal other stage)) [
    | inl same ↦ rw (same) (buffer_of-erase stage buffers)
    | inr differs ↦ rw (differs) (rw (differs) (buffer_of-erase stage buffers))
  ]

  erase_other :
      (stage other : Bytes) (buffers : List (Bytes × B))
      → equal other stage ≡ false
      → buffer_of fresh stage (erase other buffers) ≡ buffer_of fresh stage buffers
  unfolding buffer_of erase
  erase_other stage other [] differs = refl
  erase_other stage other ((third, b) ∷ buffers) differs = elim (Bool-cases (equal third other)) [
    | inl same ↦
        let not_this : equal third stage ≡ false =
          ap (λ k. equal k stage) (equal-≡ third other same) ∙ differs in
        rw (same, not_this) (erase_other stage other buffers differs)
    | inr apart ↦ elim (Bool-cases (equal third stage)) [
      | inl this ↦ rw (apart, this) refl
      | inr not_this ↦ rw (apart, not_this) (erase_other stage other buffers differs)
    ]
  ]

  pub buffer_of-store_other :
      (stage other : Bytes) (b : B) (buffers : List (Bytes × B))
      → equal other stage ≡ false
      → buffer_of fresh stage (store other b buffers) ≡ buffer_of fresh stage buffers
  unfolding buffer_of store
  buffer_of-store_other stage other b buffers differs =
      rw (differs) (erase_other stage other buffers differs)

emptied :
    {B : Type 0} {fresh : B} (R : List Bytes → B → Type 0) (mine : Bool) (lines : List Bytes)
    (b : B)
    → R [] fresh
    → R lines b
    → R (if mine then [] else lines) (if mine then fresh else b)
emptied R true lines b none r = none
emptied R false lines b none r = r

-- What calls do to the buffers of a sink that adds a line by `add`.
module _ {B : Type 0} (fresh : B) (add : Channel → Bytes → B → B) where
  abbrev pub put : Bytes → Channel → Bytes → List (Bytes × B) → List (Bytes × B)
  put at on text buffers = store at (add on text (buffer_of fresh at buffers)) buffers

  unfoldable pub after : List Call → List (Bytes × B) → List (Bytes × B)
  after [] buffers = buffers
  after (starts at ∷ calls) buffers = after calls (erase at buffers)
  after (puts at on text ∷ calls) buffers = after calls (put at on text buffers)
  after (finishes at result ∷ calls) buffers = after calls (erase at buffers)

  buffer_of-put :
      (stage at : Bytes) (on : Channel) (text : Bytes) (buffers : List (Bytes × B))
      → buffer_of fresh stage (put at on text buffers) ≡ (
          if equal at stage
          then add on text (buffer_of fresh stage buffers)
          else buffer_of fresh stage buffers)
  buffer_of-put stage at on text buffers = elim (Bool-cases (equal at stage)) [
    | inr differs ↦ rw (differs) (
        buffer_of-store_other fresh stage at (add on text (buffer_of fresh at buffers)) buffers
          differs)
    | inl same ↦
        let at_is : at ≡ stage = equal-≡ at stage same in
        rw (same) (
          ap (λ k. buffer_of fresh k (put at on text buffers)) (sym at_is)
          ∙ buffer_of-store fresh at (add on text (buffer_of fresh at buffers)) buffers
          ∙ ap (λ k. add on text (buffer_of fresh k buffers)) at_is)
  ]

  buffer_of-erased :
      (stage at : Bytes) (buffers : List (Bytes × B))
      → buffer_of fresh stage (erase at buffers)
        ≡ (if equal at stage then fresh else buffer_of fresh stage buffers)
  buffer_of-erased stage at buffers = elim (Bool-cases (equal at stage)) [
    | inr differs ↦ rw (differs) (erase_other fresh stage at buffers differs)
    | inl same ↦
        let at_is : at ≡ stage = equal-≡ at stage same in
        rw (same) (
          ap (λ k. buffer_of fresh k (erase at buffers)) (sym at_is)
          ∙ buffer_of-erase fresh at buffers)
  ]

  -- How the buffer of a stage stands to its lines, kept by each call.
  pub since-after :
      (R : List Bytes → B → Type 0) (stage : Bytes) (channel : Channel)
      → R [] fresh
      → ((lines : List Bytes) (b : B) (on : Channel) (text : Bytes)
          → R lines b
          → R (if is_same on channel then lines ++ text ∷ [] else lines) (add on text b))
      → (calls : List Call) (lines : List Bytes) (buffers : List (Bytes × B))
      → R lines (buffer_of fresh stage buffers)
      → R (since stage channel calls lines) (buffer_of fresh stage (after calls buffers))
  unfolding since after
  since-after R stage channel none added [] lines buffers r = r
  since-after R stage channel none added (starts at ∷ calls) lines buffers r =
      since-after R stage channel none added calls _ (erase at buffers) (
        subst (R (if equal at stage then [] else lines)) (sym (buffer_of-erased stage at buffers))
          (emptied R (equal at stage) lines (buffer_of fresh stage buffers) none r))
  since-after R stage channel none added (finishes at result ∷ calls) lines buffers r =
      since-after R stage channel none added calls _ (erase at buffers) (
        subst (R (if equal at stage then [] else lines)) (sym (buffer_of-erased stage at buffers))
          (emptied R (equal at stage) lines (buffer_of fresh stage buffers) none r))
  since-after R stage channel none added (puts at on text ∷ calls) lines buffers r =
      since-after R stage channel none added calls _ (put at on text buffers) (
        subst (R (if equal at stage && is_same on channel then lines ++ text ∷ [] else lines))
          (sym (buffer_of-put stage at on text buffers)) (longer (equal at stage)))
    where
      longer :
          (mine : Bool)
          → R (if mine && is_same on channel then lines ++ text ∷ [] else lines) (
              if mine
              then add on text (buffer_of fresh stage buffers)
              else buffer_of fresh stage buffers)
      longer true = added lines (buffer_of fresh stage buffers) on text r
      longer false = r
