-- ===== src/Common/Result.antt =====
-- `none` is a constraint that cannot be met, or a panic. Chains of steps are `do` blocks.
use mathlib.Core.Path.{◌≡◌, refl, ap}
use mathlib.Core.Bool.{Bool, true, false}
use mathlib.Core.Option.{Option, none, some}

infixl 5 ◌>>=◌ ◌>>◌
abbrev pub ◌>>=◌ {ℓ κ} : {A : Type ℓ} {B : Type κ} → Option A → (A → Option B) → Option B
some a >>= f = f a
none >>= f = none

abbrev pub ◌>>◌ {ℓ} : {B : Type ℓ} → Option (Unit {0}) → Option B → Option B
m >> k = m >>= λ _. k

-- A constraint, or an `assert!`: the rest runs only where the test holds.
abbrev pub assert : Bool → Option (Unit {0})
assert true = some tt
assert false = none

-- What a chain that succeeds went through.
pub bind_inv {ℓ κ} :
    {A : Type ℓ} {B : Type κ} (m : Option A) (f : A → Option B) {b : B}
    → (m >>= f) ≡ some b
    → (a : A) × (m ≡ some a) × (f a ≡ some b)
bind_inv (some a) f h = (a, refl, h)
bind_inv none f h = cc

pub assert_inv {κ} :
    {B : Type κ} (t : Bool) (k : Option B) {b : B}
    → (assert t >> k) ≡ some b
    → (t ≡ true) × (k ≡ some b)
assert_inv true k h = (refl, h)
assert_inv false k h = cc

pub assert-true : (t : Bool) → assert t ≡ some tt → t ≡ true
assert-true true h = refl
assert-true false h = cc

pub some_inj {ℓ} : {A : Type ℓ} {a b : A} → some a ≡ some b → a ≡ b
some_inj {A} {a} {b} h = ap value h
  where
    value : Option A → A
    value (some x) = x
    value none = a
