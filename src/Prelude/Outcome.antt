-- ===== src/Prelude/Outcome.antt =====
-- What a handler does: it returns, it throws, or the language gives it no meaning.
use mathlib.Core.Path.{◌≡◌, refl}
use mathlib.Core.Option.{Option, none, some}
use Prim.Native.String.{String}

pub data Fault : Type 0 where
  -- an access outside an array or a vector, a null dereference, a division by zero
  undefined : Fault
  out_of_range bad_variant_access : Fault
  runtime_error : String → Fault
  -- a `SystemException` of chord/, which the caller of the remote procedure is sent
  system_exception : String → Fault
  -- the exceptions of http/
  http_exception socket_exception : String → Fault
  socket_closed : Fault

pub data Outcome {ℓ} (A : Type ℓ) : Type ℓ where
  ok : A → Outcome A
  fault : Fault → Outcome A

infixl 5 ◌>>=◌
-- What follows runs only after a normal return.
abbrev pub ◌>>=◌ {ℓ κ} : {S : Type ℓ} {T : Type κ} → Outcome S → (S → Outcome T) → Outcome T
fault why >>= next = fault why
ok result >>= next = next result

-- A missing value is a fault.
abbrev pub or_fault {ℓ} : {S : Type ℓ} → Option S → Fault → Outcome S
or_fault none why = fault why
or_fault (some result) why = ok result

pub >>=-eq-ok {ℓ κ} :
    {S : Type ℓ} {T : Type κ} (before : Outcome S) (next : S → Outcome T) {final : T}
    → (before >>= next) ≡ ok final
    → (result : S) × (before ≡ ok result) × (next result ≡ ok final)
>>=-eq-ok (fault why) next done = cc
>>=-eq-ok (ok result) next done = (result, refl, done)

pub ok-injective {ℓ} : {S : Type ℓ} {x y : S} → ok x ≡ ok y → x ≡ y
ok-injective h = cc
