-- ===== src/Base/Outcomes.antt =====
-- How a piece of C code ends: with a value, or by leaving the thread or the process.
use Prim.Native.Nat.{ℕ}
use mathlib.Core.Path.{◌≡◌, refl, ap}
use mathlib.Core.Logic.{◌⊎◌, inl, inr}
use mathlib.Core.Bool.{Bool, true, false}
use mathlib.Core.Option.{Option, none, some}

-- `assert_failed` is abort() from assert; `divide_by_zero` a division or remainder by zero (SIGFPE);
-- `bad_access` an access outside an array or through a null pointer; `left_main` a `return` out of
-- the agent's main loop after an error; `exited` a call of exit, with the status that the process
-- leaves.
pub data Stop : Type 0 where
  assert_failed divide_by_zero bad_access left_main : Stop
  exited : ℕ → Stop

pub data Outcome {ℓ} (A : Type ℓ) : Type ℓ where
  ok : A → Outcome A
  stop : Stop → Outcome A

infixl 5 ◌>>=◌ ◌>>◌
abbrev pub ◌>>=◌ {ℓ κ} : {A : Type ℓ} {B : Type κ} → Outcome A → (A → Outcome B) → Outcome B
ok a >>= f = f a
stop e >>= f = stop e

abbrev pub ◌>>◌ {ℓ} : {B : Type ℓ} → Outcome (Unit {0}) → Outcome B → Outcome B
m >> k = m >>= λ _. k

-- assert(b), and with another way to stop.
abbrev pub require : Bool → Stop → Outcome (Unit {0})
require true e = ok tt
require false e = stop e

abbrev pub assert : Bool → Outcome (Unit {0})
assert b = require b assert_failed

abbrev pub or_stop {ℓ} : {A : Type ℓ} → Option A → Stop → Outcome A
or_stop none e = stop e
or_stop (some a) e = ok a

-- A successful sequence splits into its successful parts.
pub >>=-eq-ok {ℓ κ} :
    {A : Type ℓ} {B : Type κ} (m : Outcome A) (k : A → Outcome B) {y : B}
    → (m >>= k) ≡ ok y
    → (x : A) × (m ≡ ok x) × (k x ≡ ok y)
>>=-eq-ok (ok x) k h = (x, refl, h)
>>=-eq-ok (stop e) k h = cc

abbrev value_or {ℓ} : {A : Type ℓ} → A → Outcome A → A
value_or d (ok a) = a
value_or d (stop e) = d

pub Outcome-cases {ℓ} :
    {A : Type ℓ} (m : Outcome A) → ((x : A) × (m ≡ ok x)) ⊎ ((e : Stop) × (m ≡ stop e))
Outcome-cases (ok x) = inl (x, refl)
Outcome-cases (stop e) = inr (e, refl)

pub ok-injective {ℓ} : {A : Type ℓ} (a b : A) → ok a ≡ ok b → a ≡ b
ok-injective a b h = ap (value_or a) h

-- Steps without a result, before a value.
pub then-eq-ok {ℓ} :
    {A : Type ℓ} (m : Outcome (Unit {0})) (a b : A) → (m >>= λ _. ok a) ≡ ok b → a ≡ b
then-eq-ok (ok u) a b h = ok-injective a b h
then-eq-ok (stop e) a b h = cc

pub or_stop-eq-ok {ℓ} :
    {A : Type ℓ} (o : Option A) (e : Stop) (v : A) → or_stop o e ≡ ok v → o ≡ some v
or_stop-eq-ok none e v h = cc
or_stop-eq-ok (some a) e v h = ap some (ok-injective a v h)
