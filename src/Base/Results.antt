-- ===== src/Base/Results.antt =====
-- Go's `(value, error)` pairs. A function that returns an error returns no value with it, unless
-- its model says so.
use Prim.Native.String.{String, ◌++◌ as ◌<>◌}
use mathlib.Core.Path.{◌≡◌, refl}
use mathlib.Core.Bool.{Bool, true, false}
use mathlib.Core.Logic.{◌⊎◌, inl, inr}

-- What `error` values are told apart by: `errors.Is(err, errInvalidAction)`, `errors.Is(err,
-- io.EOF)`, or else their text.
pub data Error : Type 0 where
  -- `fmt.Errorf("%w: %s", errInvalidAction, action)`
  invalid_action : String → Error
  eof : Error
  message : String → Error

-- `err.Error()`
unfoldable pub error_text : Error → String
error_text (invalid_action action) = "invalid action: " <> action
error_text eof = "EOF"
error_text (message text) = text

pub data Result {ℓ} (A : Type ℓ) : Type ℓ where
  ok : A → Result A
  err : Error → Result A

infixl 5 ◌>>=◌
abbrev pub ◌>>=◌ {ℓ κ} : {A : Type ℓ} {B : Type κ} → Result A → (A → Result B) → Result B
ok value >>= next = next value
err e >>= next = err e

abbrev pub is_ok {ℓ} : {A : Type ℓ} → Result A → Bool
is_ok (ok a) = true
is_ok (err e) = false

pub Result-cases {ℓ} :
    {A : Type ℓ} (r : Result A) → ((a : A) × (r ≡ ok a)) ⊎ ((e : Error) × (r ≡ err e))
Result-cases (ok a) = inl (a, refl)
Result-cases (err e) = inr (e, refl)
