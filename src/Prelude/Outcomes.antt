-- ===== src/Prelude/Outcomes.antt =====
-- What a call of the program's code comes to: a value, a Rust panic, or a loop whose fuel ran out.
use Prim.Native.Nat.{ℕ, zero, suc}
use mathlib.Core.Path.{◌≡◌, refl}
use mathlib.Core.List.{List, [], ◌∷◌}
use mathlib.Core.Bool.{Bool, true, false}

pub data Outcome {ℓ} (A : Type ℓ) : Type ℓ where
  panic stuck : Outcome A
  ok : A → Outcome A

-- Running one call after another, for `do` blocks.
module _ {ℓ κ} {A : Type ℓ} {B : Type κ} where
  infixl 5 ◌>>=◌ ◌>>◌
  abbrev pub ◌>>=◌ : Outcome A → (A → Outcome B) → Outcome B
  panic >>= next = panic
  stuck >>= next = stuck
  ok value >>= next = next value

  abbrev pub ◌>>◌ : Outcome A → Outcome B → Outcome B
  panic >> next = panic
  stuck >> next = stuck
  ok value >> next = next

  -- A sequence that returns has a first call that returns.
  pub >>=-eq-ok :
      (first : Outcome A) (next : A → Outcome B) {result : B}
      → (first >>= next) ≡ ok result
      → (value : A) × (first ≡ ok value) × (next value ≡ ok result)
  >>=-eq-ok panic next e = cc
  >>=-eq-ok stuck next e = cc
  >>=-eq-ok (ok value) next e = (value, refl, e)

-- `assert!` and the checks that Rust makes by itself.
abbrev pub ensure : Bool → Outcome (Unit {0})
ensure false = panic
ensure true = ok tt

-- An indexed access, which panics out of bounds.
abbrev pub index {ℓ} : {A : Type ℓ} → List A → ℕ → Outcome A
index [] i = panic
index (x ∷ xs) zero = ok x
index (x ∷ xs) (suc i) = index xs i

-- A sequence that returns has met its assertion.
pub ensure-eq-ok {ℓ} :
    {A : Type ℓ} (b : Bool) (next : Outcome A) {result : A}
    → (ensure b >> next) ≡ ok result
    → (b ≡ true) × (next ≡ ok result)
ensure-eq-ok false next e = cc
ensure-eq-ok true next e = (refl, e)

pub ensure-true : (b : Bool) → ensure b ≡ ok tt → b ≡ true
ensure-true false e = cc
ensure-true true e = refl

-- The other way: a sequence whose first call returns.
pub ensure-ok {ℓ} :
    {A : Type ℓ} (b : Bool) (next : Outcome A) {result : Outcome A}
    → b ≡ true
    → next ≡ result
    → (ensure b >> next) ≡ result
ensure-ok false next h e = cc h
ensure-ok true next h e = e

pub >>=-ok {ℓ κ} :
    {A : Type ℓ} {B : Type κ} (first : Outcome A) (next : A → Outcome B) {value : A}
    {result : Outcome B}
    → first ≡ ok value
    → next value ≡ result
    → (first >>= next) ≡ result
>>=-ok first next h e = rw h e
