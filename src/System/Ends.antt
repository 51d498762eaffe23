-- ===== src/System/Ends.antt =====
-- A property of what a call leaves, where it neither fails nor reaches outside an object.
use pmlogdaemon.Base.{◌≡◌, arith, refl, subst, Bool, true, false, Option, none, some, if◌then◌else◌}
use pmlogdaemon.Base.Outcome.{Outcome, done, aborted, overflow, ◌>>=◌}

-- What holds of a result that is no failure.
pub data Ends {ℓ} {A : Type ℓ} (P : A → Type 0) : Outcome A → Type ℓ where
  ends : {a : A} → P a → Ends P (done a)
  aborts : Ends P aborted
  overflows : Ends P overflow

pub Ends-bind {ℓ κ} :
    {A : Type ℓ} {B : Type κ} {P : A → Type 0} {Q : B → Type 0} {m : Outcome A} {k : A → Outcome B}
    → Ends P m
    → ((a : A) → P a → Ends Q (k a))
    → Ends Q (m >>= k)
Ends-bind (ends h) g = g _ h
Ends-bind aborts g = aborts
Ends-bind overflows g = overflows

pub Ends-any {ℓ} : {A : Type ℓ} (m : Outcome A) → Ends (λ a. Unit) m
Ends-any (done a) = ends tt
Ends-any aborted = aborts
Ends-any overflow = overflows

pub Ends-known : {A : Type 0} (m : Outcome A) → Ends (λ a. m ≡ done a) m
Ends-known (done a) = ends refl
Ends-known aborted = aborts
Ends-known overflow = overflows

pub ended {ℓ} : {A : Type ℓ} {P : A → Type 0} {m : Outcome A} {a : A} → Ends P m → m ≡ done a → P a
ended {P} (ends h) e = subst P (ground (arith, e)) h
ended aborts e = absurd (ground (arith, e))
ended overflows e = absurd (ground (arith, e))

pub Ends-if {ℓ} :
    {A : Type ℓ} {P : A → Type 0} {x y : Outcome A} (b : Bool)
    → Ends P x
    → Ends P y
    → Ends P (if b then x else y)
Ends-if true h g = h
Ends-if false h g = g

pub Ends-test {ℓ} :
    {A : Type ℓ} {P : A → Type 0} {x y : Outcome A} (b : Bool)
    → Ends P x
    → Ends P y
    → Ends P (elim b [ true ↦ x | false ↦ y ])
Ends-test true h g = h
Ends-test false h g = g

pub Ends-option {ℓ κ} :
    {A : Type ℓ} {B : Type κ} {P : A → Type 0} {z : Outcome A} (o : Option B) (k : B → Outcome A)
    → Ends P z
    → ((b : B) → Ends P (k b))
    → Ends P (elim o [ none ↦ z | some b ↦ k b ])
Ends-option none k h g = h
Ends-option (some b) k h g = g b
