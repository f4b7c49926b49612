-- ===== src/Transport/Controller/Tally.antt =====
-- Connections counted by a weight.
use native.Mathlib.Decide.{dec_lt}
use pipe_shell_x.Base.{
  ℕ, zero, suc, ◌+◌, ◌≡◌, ◌≤◌, ◌<◌, refl, [], ◌∷◌, List, Bool, true, false, not, ◌&&◌, length,
  get_or, set, arith,
}
use pipe_shell_x.Transport.Controller.{Conn, no_conn}

abbrev pub weight : Bool → ℕ
weight true = 1
weight false = 0

pub weight-le : (b : Bool) → weight b ≤ 1
weight-le true = omega arith
weight-le false = omega arith

abbrev pub tally : (Conn → ℕ) → List Conn → ℕ
tally f [] = 0
tally f (c ∷ cs) = f c + tally f cs

-- A connection that is written trades its weight.
pub tally-set :
    (f : Conn → ℕ) (cs : List Conn) (i : ℕ) (c : Conn)
    → i < length cs
    → tally f (set cs i c) + f (get_or cs i no_conn) ≡ tally f cs + f c
tally-set f [] i c h = absurd (omega arith)
tally-set f (d ∷ cs) zero c h = omega arith
tally-set f (d ∷ cs) (suc i) c h = omega (arith, tally-set f cs i c (omega arith))

-- A connection of weight stands somewhere in a list of weight.
pub tally-some :
    (f : Conn → ℕ) (cs : List Conn)
    → 0 < tally f cs
    → (i : ℕ) × (i < length cs) × (0 < f (get_or cs i no_conn))
tally-some f [] h = absurd (omega arith)
tally-some f (c ∷ cs) h = elim (dec_lt 0 (f c)) [
  | yes here ↦ (0, omega arith, here)
  | no past ↦
      let (i, below, there) = tally-some f cs (omega (arith, past)) in
      (suc i, omega (arith, below), there)
]

pub tally-none :
    (f : Conn → ℕ) (cs : List Conn)
    → ((i : ℕ) → i < length cs → f (get_or cs i no_conn) ≡ 0)
    → tally f cs ≡ 0
tally-none f [] h = refl
tally-none f (c ∷ cs) h =
    omega (arith, h 0 (omega arith), tally-none f cs (λ i l. h (suc i) (omega (arith, l))))

-- The weights of a connection.
abbrev pub open_weight : Conn → ℕ
open_weight c = weight (not c.done)

abbrev pub busy_weight : Conn → ℕ
busy_weight c = weight c.active

abbrev pub idle_weight : Conn → ℕ
idle_weight c = weight (c.active && c.done)

pub tally-le :
    (f : Conn → ℕ) (cs : List Conn) (i : ℕ) → i < length cs → f (get_or cs i no_conn) ≤ tally f cs
tally-le f [] i h = absurd (omega arith)
tally-le f (c ∷ cs) zero h = omega arith
tally-le f (c ∷ cs) (suc i) h = omega (arith, tally-le f cs i (omega arith))
