-- ===== src/Base/Failures.antt =====
-- How a piece of C++ ends: with a value, or by one of the ways in which the process goes down.
use mathlib.Core.Path.{◌≡◌, refl}
use native.Mathlib.Omega.{arith}
use mathlib.Core.Bool.{Bool, true, false}

-- `assertion`: an `assert` that fails. `out_of_range`: memory outside an object is touched.
-- `length_error`: an exception that nothing catches. `out_of_fuel` is of the model alone: a loop
-- that was given too few rounds. `exited`: the program calls `exit`. `use_after_free`: a callback
-- works on an object that was freed.
pub data Failure : Type 0 where
  assertion out_of_range length_error out_of_fuel exited use_after_free : Failure

pub data Outcome {ℓ} (Value : Type ℓ) : Type ℓ where
  fail : Failure → Outcome Value
  ok : Value → Outcome Value

-- `assert(test)`, and the like for the other failures
abbrev pub require : Bool → Failure → Outcome (Unit {0})
require false why = fail why
require true why = ok tt

-- What follows runs only after a value.
infixl 5 ◌>>=◌ ◌>>◌
abbrev pub ◌>>=◌ {ℓ κ} :
    {Value : Type ℓ} {Next : Type κ} → Outcome Value → (Value → Outcome Next) → Outcome Next
fail why >>= next = fail why
ok value >>= next = next value

abbrev pub ◌>>◌ {κ} : {Next : Type κ} → Outcome (Unit {0}) → Outcome Next → Outcome Next
first >> next = first >>= λ done. next

-- A chain that gives a value has one at each link.
pub bind-ok {ℓ κ} :
    {Value : Type ℓ} {Next : Type κ} (o : Outcome Value) (next : Value → Outcome Next) (n : Next)
    → (o >>= next) ≡ ok n
    → (v : Value) × (o ≡ ok v) × (next v ≡ ok n)
bind-ok (fail why) next n e = absurd (ground arith)
bind-ok (ok v) next n e = (v, refl, e)

pub ok_injective {ℓ} : {Value : Type ℓ} {v w : Value} → ok v ≡ ok w → v ≡ w
ok_injective e = ground arith
