-- ===== src/Prelude/Run.antt =====
-- How a C function ends: with a value, by an abort of the run-time library (`vabort`, `vassert`),
-- or by undefined behaviour, such as a read through a null pointer, or never (`fault`).
use mathlib.Core.Path.{◌≡◌, ap, ◌∙◌, refl}
use mathlib.Core.Bool.{Bool, true, false}
use mathlib.Core.Option.{Option, none, some}

pub data Run {ℓ} (A : Type ℓ) : Type ℓ where
  ok : A → Run A
  abort : Run A
  fault : Run A

infixl 5 ◌>>=◌ ◌>>◌
abbrev pub ◌>>=◌ {ℓ κ} : {A : Type ℓ} {B : Type κ} → Run A → (A → Run B) → Run B
ok a >>= f = f a
abort >>= f = abort
fault >>= f = fault

abbrev pub ◌>>◌ {ℓ} : {B : Type ℓ} → Run (Unit {0}) → Run B → Run B
m >> k = m >>= λ _. k

-- `vassert(test, …)`: the run ends unless the test holds.
abbrev pub vassert : Bool → Run (Unit {0})
vassert true = ok tt
vassert false = abort

-- a read of memory that may not be there
abbrev pub of_option {ℓ} : {A : Type ℓ} → Option A → Run A
of_option none = fault
of_option (some a) = ok a

-- A call returns, with a result of which `P` holds.
abbrev pub Ensures {ℓ κ} : {A : Type ℓ} → Run A → (A → Type κ) → Type (ℓ ⊔ κ)
Ensures {A} m P = (a : A) × (m ≡ ok a) × P a

pub Ensures-bind {ℓ κ ℓ' κ'} :
    {A : Type ℓ} {B : Type κ} (m : Run A) (f : A → Run B) (P : A → Type ℓ') (Q : B → Type κ')
    → Ensures m P
    → ((a : A) → P a → Ensures (f a) Q)
    → Ensures (m >>= f) Q
Ensures-bind m f P Q (a, e, p) k = let (b, e', q) = k a p in (b, ap (λ x. x >>= f) e ∙ e', q)

pub Ensures-ok {ℓ κ} : {A : Type ℓ} (P : A → Type κ) {a : A} → P a → Ensures (ok a) P
Ensures-ok P {a} p = (a, refl, p)

-- both branches of a test
pub Ensures-elim {ℓ κ} :
    {A : Type ℓ} (b : Bool) (x y : Run A) (P : A → Type κ)
    → Ensures x P
    → Ensures y P
    → Ensures (elim b [ true ↦ x | false ↦ y ]) P
Ensures-elim true x y P p q = p
Ensures-elim false x y P p q = q
