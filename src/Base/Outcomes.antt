-- ===== src/Base/Outcomes.antt =====
-- What a call comes to: it returns, it breaks the memory rules of C, or the model's fuel runs out.
use mathlib.Core.Path.{◌≡◌}
use mathlib.Core.Option.{Option, none, some}

pub data Outcome {ℓ} (A : Type ℓ) : Type ℓ where
  ok : A → Outcome A
  fault : Outcome A
  stuck : Outcome A

infixl 5 ◌>>=◌
abbrev pub ◌>>=◌ {ℓ κ} : {A : Type ℓ} {B : Type κ} → Outcome A → (A → Outcome B) → Outcome B
ok a >>= f = f a
fault >>= f = fault
stuck >>= f = stuck

abbrev pub or_fault {ℓ} : {A : Type ℓ} → Option A → Outcome A
or_fault none = fault
or_fault (some a) = ok a

pub ok-injective {ℓ} : {A : Type ℓ} {a b : A} → ok a ≡ ok b → a ≡ b
ok-injective h = cc

-- The fuel was enough.
abbrev pub Ended {ℓ} : {A : Type ℓ} → Outcome A → Type 0
Ended (ok a) = Unit {0}
Ended fault = Unit {0}
Ended stuck = ⊥

pub Ended-bind {ℓ κ} :
    {A : Type ℓ} {B : Type κ} (r : Outcome A) (f : A → Outcome B)
    → Ended r
    → ((a : A) → Ended (f a))
    → Ended (r >>= f)
Ended-bind (ok a) f h k = k a
Ended-bind fault f h k = tt
Ended-bind stuck f h k = h
