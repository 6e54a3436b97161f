-- ===== src/Prelude/Fuel.antt =====
-- Calls that do not fail for want of fuel.
use mathlib.Core.Path.{◌≡◌}
use mathlib.Core.Bool.{Bool, true, false}
use prevail.Prelude.Tests.{if◌then◌else◌}
use prevail.Prelude.Result.{Result, ok, err, ◌>>=◌, Error, out_of_fuel, IfOk, yields}

abbrev pub runs_dry : Error → Bool
runs_dry out_of_fuel = true
runs_dry e = false

-- A call that returns, or fails otherwise than for want of fuel.
pub data Fueled {A : Type 0} : Result A → Type 0 where
  returned : {a : A} → Fueled (ok a)
  failed : {e : Error} → runs_dry e ≡ false → Fueled (err e)

pub bind-Fueled :
    {A B : Type 0} {r : Result A} {f : A → Result B}
    → Fueled r
    → ((a : A) → Fueled (f a))
    → Fueled (r >>= f)
bind-Fueled returned k = k _
bind-Fueled (failed h) k = failed h

-- What a value satisfies is known to the call that follows.
pub flow-Fueled :
    {A B : Type 0} {P : A → Type 0} {r : Result A} {f : A → Result B}
    → Fueled r
    → IfOk P r
    → ((a : A) → P a → Fueled (f a))
    → Fueled (r >>= f)
flow-Fueled returned (yields h) k = k _ h
flow-Fueled (failed e) h k = failed e

pub if-Fueled :
    {A : Type 0} (t : Bool) (r s : Result A) → Fueled r → Fueled s → Fueled (if t then r else s)
if-Fueled true r s h k = h
if-Fueled false r s h k = k
