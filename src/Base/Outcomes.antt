-- ===== src/Base/Outcomes.antt =====
-- What a call comes to: a value, a C++ exception, or undefined behaviour that the model makes
-- visible. `out_of_fuel` is no C++ outcome: a loop was given too few rounds.
use mathlib.Core.Path.{◌≡◌, refl}
use mathlib.Core.Bool.{Bool, true, false}
use mathlib.Core.Option.{Option, none, some}

pub data Failure : Type 0 where
  out_of_range null_pointer bad_access bad_iterator assertion_failed bad_shift out_of_fuel : Failure

pub data Outcome {ℓ} (A : Type ℓ) : Type ℓ where
  ok : A → Outcome A
  fail : Failure → Outcome A

-- A pointer that may be null, followed.
abbrev pub or_fail {ℓ} : {A : Type ℓ} → Option A → Failure → Outcome A
or_fail none e = fail e
or_fail (some a) e = ok a

-- The next step of a call runs only if the step before it came to a value.
infixl 5 ◌>>=◌ ◌>>◌
abbrev pub ◌>>=◌ {ℓ κ} : {A : Type ℓ} {B : Type κ} → Outcome A → (A → Outcome B) → Outcome B
fail e >>= next = fail e
ok a >>= next = next a

abbrev pub ◌>>◌ {ℓ} : {B : Type ℓ} → Outcome (Unit {0}) → Outcome B → Outcome B
m >> k = m >>= λ _. k

abbrev pub guard : Bool → Failure → Outcome (Unit {0})
guard false e = fail e
guard true e = ok tt

pub ok-injective {ℓ} : {A : Type ℓ} {a b : A} → ok a ≡ ok b → a ≡ b
ok-injective e = cc

-- A chain that succeeds has succeeded in its first step.
pub >>=-eq-ok {ℓ κ} :
    {A : Type ℓ} {B : Type κ} (m : Outcome A) (f : A → Outcome B) {b : B}
    → (m >>= f) ≡ ok b
    → (first : A) × (f first ≡ ok b) × (m ≡ ok first)
>>=-eq-ok (fail e) f h = cc
>>=-eq-ok (ok a) f h = (a, h, refl)

-- A step behind a finished prefix of a chain.
pub >>=-then {ℓ κ ι} :
    {A : Type ℓ} {B : Type κ} {C : Type ι} (m : Outcome A) (f : A → Outcome B) (g : B → Outcome C)
    {b : B} {r : Outcome C}
    → (m >>= f) ≡ ok b
    → g b ≡ r
    → (m >>= λ a. f a >>= g) ≡ r
>>=-then (ok a) f g e k = rw e k
>>=-then (fail x) f g e k = cc

-- A last step added behind a chain of three that succeeds.
pub >>=-extend {ℓ κ ι ο} :
    {A : Type ℓ} {B : Type κ} {C : Type ι} {D : Type ο} (m : Outcome A) (f : A → Outcome B)
    (h : B → Outcome C) (g : C → Outcome D) {c : C}
    → (m >>= λ a. f a >>= h) ≡ ok c
    → (m >>= λ a. f a >>= λ b. h b >>= g) ≡ g c
>>=-extend (fail x) f h g e = cc
>>=-extend (ok a) f h g e = let (b, second, first) = >>=-eq-ok (f a) h e in rw (first, second)
