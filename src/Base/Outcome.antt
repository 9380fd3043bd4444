-- ===== src/Base/Outcome.antt =====
-- Go's pair of a value and an error, and the ways in which a call can end.
use mathlib.Core.Path.{◌≡◌, refl}
use mathlib.Core.Logic.{◌⊎◌, inl, inr}

pub data Result {ℓ} (E A : Type ℓ) : Type ℓ where
  ok : A → Result E A
  err : E → Result E A

-- A call returns an error, or it panics: here, by a write to a nil map.
pub data Fault {ℓ} (E : Type ℓ) : Type ℓ where
  error : E → Fault E
  panic : Fault E

-- An error that is returned as it came.
abbrev pub lift {ℓ} : {E A : Type ℓ} → Result E A → Result (Fault E) A
lift (ok a) = ok a
lift (err e) = err (error e)

pub Result-cases {ℓ} :
    {E A : Type ℓ} (r : Result E A) → ((a : A) × (r ≡ ok a)) ⊎ ((e : E) × (r ≡ err e))
Result-cases (ok a) = inl (a, refl)
Result-cases (err e) = inr (e, refl)
