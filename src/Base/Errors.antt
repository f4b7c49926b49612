-- ===== src/Base/Errors.antt =====
-- include/psx/result.hpp: error classes, errors, and the expected-style result of the lower layers.
use Prim.Native.String.{String}
use mathlib.Core.Path.{◌≡◌, refl}
use mathlib.Core.Logic.{◌⊎◌, inl, inr}
use pipe_shell_x.Base.Int.{ℤ, pos}

pub data ErrorClass : Type 0 where
  interrupted would_block broken_pipe closed not_found permission_denied : ErrorClass
  too_many_handles invalid_argument no_such_process timeout unsupported other : ErrorClass

pub record Error : Type 0 where
  pub cls : ErrorClass
  pub code : ℤ
  pub op : String

pub data Result {ℓ} (V : Type ℓ) : Type ℓ where
  err : Error → Result V
  ok : V → Result V

infixl 5 ◌>>=◌ ◌>>◌
-- `PSX_TRY`: a failed result is what its function returns.
abbrev pub ◌>>=◌ {ℓ κ} : {U : Type ℓ} {V : Type κ} → Result U → (U → Result V) → Result V
err e >>= next = err e
ok value >>= next = next value

-- The early return on a failed check.
abbrev pub ◌>>◌ {ℓ} : {V : Type ℓ} → Result (Unit {0}) → Result V → Result V
check >> next = check >>= λ _. next

-- `psx::Error{cls, 0, what}`, the form that every module below the platform layer builds.
abbrev pub error_of : ErrorClass → String → Error
error_of cls what = record { cls = cls; code = pos 0; op = what }

pub Result-cases {ℓ} :
    {A : Type ℓ} (r : Result A) → ((a : A) × (r ≡ ok a)) ⊎ ((e : Error) × (r ≡ err e))
Result-cases (ok a) = inl (a, refl)
Result-cases (err e) = inr (e, refl)

pub ok-injective {ℓ} : {A : Type ℓ} {a b : A} → ok a ≡ ok b → a ≡ b
ok-injective e = cc

-- A chain succeeds only through its first step.
pub >>=-eq-ok {ℓ κ} :
    {U : Type ℓ} {V : Type κ} (first : Result U) (next : U → Result V) {v : V}
    → (first >>= next) ≡ ok v
    → (u : U) × (first ≡ ok u) × (next u ≡ ok v)
>>=-eq-ok (err failure) next done = cc
>>=-eq-ok (ok u) next done = (u, refl, done)

pub >>-eq-ok {ℓ} :
    {V : Type ℓ} (check : Result (Unit {0})) (next : Result V) {v : V}
    → (check >> next) ≡ ok v
    → (check ≡ ok tt) × (next ≡ ok v)
>>-eq-ok (err failure) next done = cc
>>-eq-ok (ok tt) next done = (refl, done)
