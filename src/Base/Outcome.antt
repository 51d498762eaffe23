-- ===== src/Base/Outcome.antt =====
-- What a call leaves: its result, a failed `g_assert`, or a memory access outside its block.
use mathlib.Core.Bool.{Bool, true, false}
use mathlib.Core.Option.{Option, none, some}
use mathlib.Core.Path.{◌≡◌, refl}

pub data Outcome {ℓ} (A : Type ℓ) : Type ℓ where
  done : A → Outcome A
  aborted : Outcome A
  overflow : Outcome A

infixl 5 ◌>>=◌ ◌>>◌
abbrev pub ◌>>=◌ {ℓ κ} : {A : Type ℓ} {B : Type κ} → Outcome A → (A → Outcome B) → Outcome B
done a >>= f = f a
aborted >>= f = aborted
overflow >>= f = overflow

abbrev pub ◌>>◌ {ℓ} : {B : Type ℓ} → Outcome (Unit {0}) → Outcome B → Outcome B
m >> k = m >>= λ _. k

-- A call that neither fails nor goes outside an object.
abbrev pub Returns {ℓ} : {A : Type ℓ} → Outcome A → Type ℓ
Returns {A} o = (a : A) × (o ≡ done a)

pub Returns-bind {ℓ κ} :
    {A : Type ℓ} {B : Type κ} {m : Outcome A} (k : A → Outcome B)
    → Returns m
    → ((a : A) → m ≡ done a → Returns (k a))
    → Returns (m >>= k)
Returns-bind k (a, e) h = let (b, f) = h a e in (b, rw e f)

pub Returns-option {ℓ κ} :
    {A : Type ℓ} {B : Type κ} (o : Option B) {z : Outcome A} (k : B → Outcome A)
    → Returns z
    → ((b : B) → o ≡ some b → Returns (k b))
    → Returns (elim o [ none ↦ z | some b ↦ k b ])
Returns-option none k h g = h
Returns-option (some b) k h g = g b refl

-- `g_assert`
abbrev pub g_assert : Bool → Outcome (Unit {0})
g_assert true = done tt
g_assert false = aborted
