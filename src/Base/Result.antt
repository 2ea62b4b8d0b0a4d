-- ===== src/Base/Result.antt =====
-- Python exceptions as values: the classes of protocol/errors.py and devices/base.py and the
-- built-in ones that the modelled code raises.
use mathlib.Core.Path.{◌≡◌, refl, ap}
use jebao_flow_engine.Base.Tests.{if◌then◌else◌}
use mathlib.Core.Bool.{Bool, true, false}
use mathlib.Core.Option.{Option, none, some}
use mathlib.Core.Logic.{◌⊎◌, inl, inr}

pub data Error : Type 0 where
  value_error type_error key_error index_error assertion_error not_implemented_error : Error
  overflow_error zero_division_error : Error
  protocol_decode_error incomplete_frame_error frame_too_large_error : Error
  protocol_connection_error protocol_timeout_error : Error
  unexpected_response_error authentication_error : Error
  device_connection_error unsupported_capability_error : Error
  hardware_writes_disabled_error state_verification_error stop_iteration : Error

-- `except ProtocolDecodeError` catches the class and its two subclasses.
unfoldable pub is_decode_error : Error → Bool
is_decode_error protocol_decode_error = true
is_decode_error incomplete_frame_error = true
is_decode_error frame_too_large_error = true
is_decode_error _ = false

pub data Result {ℓ} (A : Type ℓ) : Type ℓ where
  -- a raised exception, and a value
  err : Error → Result A
  ok : A → Result A

-- An exception ends the block that it is raised in.
infixl 10 ◌>>=◌
abbrev pub ◌>>=◌ {ℓ κ} : {A : Type ℓ} {B : Type κ} → Result A → (A → Result B) → Result B
err raised >>= next = err raised
ok value >>= next = next value

infixl 10 ◌>>◌
abbrev pub ◌>>◌ {κ} : {B : Type κ} → Result (Unit {0}) → Result B → Result B
check >> rest = check >>= λ _. rest

-- `if not test: raise error`
abbrev pub ensure : Bool → Error → Result (Unit {0})
ensure true e = ok tt
ensure false e = err e

pub Result-cases {ℓ} :
    {A : Type ℓ} (r : Result A) → ((a : A) × (r ≡ ok a)) ⊎ ((e : Error) × (r ≡ err e))
Result-cases (ok a) = inl (a, refl)
Result-cases (err e) = inr (e, refl)

-- The value of an option that has to be there.
abbrev pub require {ℓ} : {A : Type ℓ} → Error → Option A → Result A
require e none = err e
require e (some a) = ok a

pub require-eq-ok {ℓ} :
    {A : Type ℓ} (e : Error) (o : Option A) {a : A} → require e o ≡ ok a → o ≡ some a
require-eq-ok e none h = cc
require-eq-ok e (some a) h = cc

-- What a successful guard, and a successful step, have shown.
pub ensure-eq-ok {ℓ} :
    {B : Type ℓ} (test : Bool) (e : Error) (k : Result B) {b : B}
    → (ensure test e >> k) ≡ ok b
    → (test ≡ true) × (k ≡ ok b)
ensure-eq-ok true e k h = (refl, h)
ensure-eq-ok false e k h = cc

pub >>=-eq-ok {ℓ κ} :
    {A : Type ℓ} {B : Type κ} (first : Result A) (next : A → Result B) {result : B}
    → (first >>= next) ≡ ok result
    → (value : A) × (first ≡ ok value) × (next value ≡ ok result)
>>=-eq-ok (err raised) next done = cc
>>=-eq-ok (ok value) next done = (value, refl, done)

-- A block that raises no exception.
abbrev pub Returns {ℓ} : {A : Type ℓ} → Result A → Type ℓ
Returns {A = A} r = (a : A) × (r ≡ ok a)

pub >>=-Returns {ℓ κ} :
    {A : Type ℓ} {B : Type κ} (first : Result A) (next : A → Result B)
    → Returns first
    → ((a : A) → first ≡ ok a → Returns (next a))
    → Returns (first >>= next)
>>=-Returns (err raised) next (a, h) rest = cc
>>=-Returns (ok value) next h rest = rest value refl

pub ok-injective {ℓ} : {A : Type ℓ} {a b : A} → ok a ≡ ok b → a ≡ b
ok-injective {a = a} h = ap (λ r. elim r [ ok x ↦ x | err e ↦ a ]) h

-- What the value of a conditional has shown.
pub if-cases {ℓ} :
    {A : Type ℓ} (test : Bool) (x y : A) {r : A}
    → (if test then x else y) ≡ r
    → ((test ≡ true) × (x ≡ r)) ⊎ ((test ≡ false) × (y ≡ r))
if-cases true x y h = inl (refl, h)
if-cases false x y h = inr (refl, h)
