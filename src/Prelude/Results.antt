-- ===== src/Prelude/Results.antt =====
-- Go's `(value, error)` pairs as values, for an error type of the component.
use mathlib.Core.Path.{◌≡◌, refl}
use mathlib.Core.Bool.{Bool, true, false}
use mathlib.Core.Logic.{◌⊎◌, inl, inr}

pub data Result {ℓ} (Cause : Type 0) (Value : Type ℓ) : Type ℓ where
  err : Cause → Result Cause Value
  ok : Value → Result Cause Value

-- `if err != nil { return …, err }` after a call, with the rest of the body as `rest`.
infixl 5 ◌>>=◌
abbrev pub ◌>>=◌ {ℓ κ} :
    {Cause : Type 0} {X : Type ℓ} {Y : Type κ}
    → Result Cause X
    → (X → Result Cause Y)
    → Result Cause Y
err cause >>= rest = err cause
ok x >>= rest = rest x

infixl 5 ◌>>◌
abbrev pub ◌>>◌ {κ} :
    {Cause : Type 0} {Y : Type κ} → Result Cause (Unit {0}) → Result Cause Y → Result Cause Y
check >> rest = check >>= λ done. rest

-- `if bad { return err }`.
abbrev pub reject_if : {Cause : Type 0} → Bool → Cause → Result Cause (Unit {0})
reject_if false cause = ok tt
reject_if true cause = err cause

pub Result-cases {ℓ} :
    {Cause : Type 0} {X : Type ℓ} (r : Result Cause X)
    → ((x : X) × (r ≡ ok x)) ⊎ ((cause : Cause) × (r ≡ err cause))
Result-cases (err cause) = inr (cause, refl)
Result-cases (ok x) = inl (x, refl)

-- A call that returns has returned from each of its steps.
pub >>=-eq-ok {ℓ κ} :
    {Cause : Type 0} {X : Type ℓ} {Y : Type κ} (r : Result Cause X) (rest : X → Result Cause Y)
    {y : Y}
    → (r >>= rest) ≡ ok y
    → (x : X) × (r ≡ ok x) × (rest x ≡ ok y)
>>=-eq-ok (ok x) rest h = (x, refl, h)
>>=-eq-ok (err cause) rest h = cc
