-- ===== src/Fault.antt =====
-- include/gdox/error.h and src/core/error.c: the error slot that the fallible functions fill. Its
-- message text is not modelled.
use gdox.Common.{◌≡◌, refl, ◌⊎◌, inl, inr, Bool, true, false}

-- `gdox_error_code`
pub data ErrorCode : Type 0 where
  no_error invalid_argument out_of_bounds invalid_source invalid_volume : ErrorCode
  not_found protocol transport io unsupported cancelled internal : ErrorCode

-- What a fallible call returns: `true`, or `false` with what its error slot holds then. A call
-- may fail and leave its slot clear.
pub data Outcome : Type 0 where
  ok : Outcome
  failed : ErrorCode → Outcome

-- `gdox_error_is_set`
unfoldable pub error_is_set : ErrorCode → Bool
error_is_set no_error = false
error_is_set code = true

-- The Boolean that the call returned.
abbrev pub succeeded : Outcome → Bool
succeeded ok = true
succeeded (failed code) = false

-- To prove something of code that goes on only after a call that returned `true`.
pub by_outcome {ℓ κ} :
    {A : Type ℓ} (P : A → Type κ) (r : Outcome) (stop : ErrorCode → A) (go : A)
    → ((code : ErrorCode) → P (stop code))
    → (r ≡ ok → P go)
    → P (elim r [ failed code ↦ stop code | ok ↦ go ])
by_outcome P ok stop go on_failure on_success = on_success refl
by_outcome P (failed code) stop go on_failure on_success = on_failure code

pub failed-ne-ok : (code : ErrorCode) → failed code ≡ ok → ⊥
failed-ne-ok code e = cc

pub Outcome-cases : (r : Outcome) → (r ≡ ok) ⊎ ((code : ErrorCode) × (r ≡ failed code))
Outcome-cases ok = inl refl
Outcome-cases (failed code) = inr (code, refl)
