-- ===== src/Base/Errors.antt =====
-- Python's exceptions as values: a call returns, or it raises an exception of a class with a message.
use Prim.Native.String.{String}
use mathlib.Core.Path.{◌≡◌, refl}
use mathlib.Core.Logic.{◌⊎◌, inl, inr}
use mathlib.Core.Bool.{Bool, true, false}

pub data ErrorClass : Type 0 where
  value_error key_error type_error overflow_error permission_error runtime_error : ErrorClass
  execution_error adapter_error adapter_not_found adapter_conflict attribute_error : ErrorClass

pub record Exception : Type 0 where
  pub kind : ErrorClass
  pub message : String

-- What a call of Python comes to.
pub data Result {ℓ} (T : Type ℓ) : Type ℓ where
  raised : Exception → Result T
  ok : T → Result T

pub Result-cases {ℓ} :
    {T : Type ℓ} (r : Result T) → ((t : T) × (r ≡ ok t)) ⊎ ((e : Exception) × (r ≡ raised e))
Result-cases (raised e) = inr (e, refl)
Result-cases (ok t) = inl (t, refl)

abbrev pub fail {ℓ} : {T : Type ℓ} → ErrorClass → String → Result T
fail c m = raised (record { kind = c; message = m })

-- the next statement, if no exception is on its way
infixl 5 ◌>>=◌
abbrev pub ◌>>=◌ {κ ℓ} : {S : Type κ} {T : Type ℓ} → Result S → (S → Result T) → Result T
raised exception >>= next = raised exception
ok value >>= next = next value

infixl 5 ◌>>◌
abbrev pub ◌>>◌ {κ} : {T : Type κ} → Result (Unit {0}) → Result T → Result T
raised exception >> next = raised exception
ok tt >> next = next

-- `if bad: raise ValueError(message)`
abbrev pub reject_if : Bool → String → Result (Unit {0})
reject_if true m = fail value_error m
reject_if false m = ok tt
