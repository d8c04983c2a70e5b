-- ===== src/Base/Faults.antt =====
-- What a C call does: it returns, or it meets undefined behaviour, or its loop outlasts the fuel.
use mathlib.Core.Path.{◌≡◌, refl}
use mathlib.Core.Logic.{◌⊎◌, inl, inr}
use mathlib.Core.Option.{Option, none, some}

-- `bounds`: an access outside an array; `null`: a call or an access through a null pointer;
-- `dangling`: an access to memory that is not live; `fuel`: more rounds than the model runs.
pub data Fault : Type 0 where
  bounds null dangling fuel : Fault

pub data Run {ℓ} (A : Type ℓ) : Type ℓ where
  ok : A → Run A
  fault : Fault → Run A

infixl 5 ◌>>=◌
abbrev pub ◌>>=◌ {ℓ κ} : {A : Type ℓ} {B : Type κ} → Run A → (A → Run B) → Run B
ok a >>= f = f a
fault e >>= f = fault e

abbrev pub or_fault {ℓ} : {A : Type ℓ} → Option A → Fault → Run A
or_fault none e = fault e
or_fault (some a) e = ok a

pub Run-cases {ℓ} :
    {A : Type ℓ} (m : Run A) → ((a : A) × (m ≡ ok a)) ⊎ ((e : Fault) × (m ≡ fault e))
Run-cases (ok a) = inl (a, refl)
Run-cases (fault e) = inr (e, refl)

pub ok-injective {ℓ} : {A : Type ℓ} {a b : A} → ok a ≡ ok b → a ≡ b
ok-injective e = cc

pub ok-ne-fault {ℓ} : {A : Type ℓ} {m : Run A} {a : A} {e : Fault} → m ≡ ok a → m ≡ fault e → ⊥
ok-ne-fault h k = cc
