-- ===== src/Sink.antt =====
-- include/psx/sink/sink.hpp, and what the sinks that hold the output of a stage share: their
-- `buffers_`, an association list.
pub mod Buffers
pub mod Consensus
pub mod GroupLines
pub mod JsonLines
use pipe_shell_x.Base.{
  ℕ, zero, suc, ◌+◌, [], ◌∷◌, ◌++◌, List, Option, Bool, true, false, Bytes, codes, length, ◌==◌,
  if◌then◌else◌,
}
use pipe_shell_x.Base.Int.{ℤ, pos, negsuc}
use pipe_shell_x.Text.{equal}
use pipe_shell_x.Pipeline.Parser.{digits}

pub data Channel : Type 0 where
  stdout stderr : Channel

pub record StageResult : Type 0 where
  pub exit_code : ℤ
  pub timed_out : Bool
  pub error_message : Bytes
  pub dropped_bytes : ℕ

pub record RunSummary : Type 0 where
  pub stages : ℕ
  pub succeeded : ℕ
  pub failed : ℕ
  pub dropped_bytes : ℕ
  pub cancelled : Bool

-- The decimal form of an integer.
unfoldable pub decimal : ℤ → Bytes
decimal (pos n) = digits (suc n) n
decimal (negsuc n) = 45 ∷ digits (suc (suc n)) (suc n)

-- The entries of `buffers_`; a stage that has none reads as `fresh`.
module _ {ℓ} {B : Type ℓ} where
  pub buffer_of : B → Bytes → List (Bytes × B) → B
  buffer_of fresh stage [] = fresh
  buffer_of fresh stage ((other, b) ∷ buffers) =
      let rest = buffer_of fresh stage buffers in if equal other stage then b else rest

  pub erase : Bytes → List (Bytes × B) → List (Bytes × B)
  erase stage [] = []
  erase stage ((other, b) ∷ buffers) =
      let rest = erase stage buffers in if equal other stage then rest else (other, b) ∷ rest

  pub store : Bytes → B → List (Bytes × B) → List (Bytes × B)
  store stage b buffers = (stage, b) ∷ erase stage buffers
