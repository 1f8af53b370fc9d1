-- ===== src/Base/Result.antt =====
-- What Go's `(T, error)` results stand for. The constructors of `Error` are the errors that the
-- program makes itself; `external` is one that a library returned and the program passes on.
use Prim.Native.String.{String}
use mathlib.Core.Path.{◌≡◌, refl}
use mathlib.Core.Logic.{◌⊎◌, inl, inr}

pub data Error : Type 0 where
  external : String → Error
  unknown_scheme : String → Error
  unsupported_scheme : String → Error
  outside_base_dir : String → Error
  not_relative : String → String → Error
  missing_regex : Error
  compiling_regex : Error → Error
  no_named_capture_groups : Error
  not_a_string : Error
  failed_to_create_receiver : String → Error → Error
  wineventlog_not_supported : Error

pub data Result {ℓ} (T : Type ℓ) : Type ℓ where
  ok : T → Result T
  err : Error → Result T

-- The early return of an error.
infixl 5 ◌>>=◌
abbrev pub ◌>>=◌ {ℓ κ} : {S : Type ℓ} {T : Type κ} → Result S → (S → Result T) → Result T
err cause >>= rest = err cause
ok value >>= rest = rest value

-- Inversion of a successful bind, for proofs where the parts stay shut.
pub >>=-eq-ok {ℓ κ} :
    {S : Type ℓ} {T : Type κ} (r : Result S) (rest : S → Result T) {last : T}
    → r >>= rest ≡ ok last
    → (first : S) × (r ≡ ok first) × (rest first ≡ ok last)
>>=-eq-ok (err cause) rest e = cc
>>=-eq-ok (ok first) rest e = (first, refl, e)

pub ok_inj {ℓ} : {A : Type ℓ} {a b : A} → ok a ≡ ok b → a ≡ b
ok_inj h = cc

-- A result is an error or a value, with the equation.
pub Result-cases {ℓ} :
    {A : Type ℓ} (r : Result A) → ((e : Error) × (r ≡ err e)) ⊎ ((v : A) × (r ≡ ok v))
Result-cases (err e) = inl (e, refl)
Result-cases (ok v) = inr (v, refl)
