-- ===== src/Common/Res.antt =====
-- Results of code that may wait for a lock or touch a dead object.
use mathlib.Core.Path.{◌≡◌, refl}
use mathlib.Core.Option.{Option, none, some}

-- `spins`: the code waits in a loop for a lock that is held, which no step of its own frees.
-- `fault`: undefined behaviour, the use of an object that is not alive.
pub data Res {ℓ} (A : Type ℓ) : Type ℓ where
  ok : A → Res A
  spins : Res A
  fault : Res A

infixl 5 ◌>>=◌
abbrev pub ◌>>=◌ {ℓ κ} : {A : Type ℓ} {B : Type κ} → Res A → (A → Res B) → Res B
ok a >>= f = f a
spins >>= f = spins
fault >>= f = fault

-- A round of a spinning loop, met alone: another round would see the same words.
abbrev pub round {ℓ} : {A : Type ℓ} → Option A → Res A
round none = spins
round (some a) = ok a

-- A value that must be there.
abbrev pub live {ℓ} : {A : Type ℓ} → Option A → Res A
live none = fault
live (some a) = ok a

pub >>=-eq-ok {ℓ κ} :
    {A : Type ℓ} {B : Type κ} {r : B} (m : Res A) (f : A → Res B)
    → (m >>= f) ≡ ok r
    → (v : A) × (m ≡ ok v) × (f v ≡ ok r)
>>=-eq-ok (ok v) f done = (v, refl, done)
>>=-eq-ok spins f done = cc
>>=-eq-ok fault f done = cc

pub ok-injective {ℓ} : {A : Type ℓ} {a b : A} → ok a ≡ ok b → a ≡ b
ok-injective h = cc
