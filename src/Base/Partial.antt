-- ===== src/Base/Partial.antt =====
-- What a piece of C code comes to: a result, a step that C leaves undefined (an access out of
-- bounds, a signed overflow, a division by zero), or more rounds than its fuel.
use mathlib.Core.Bool.{Bool, true, false}
use mathlib.Core.Path.{◌≡◌, refl, ap, ◌∙◌, subst}
use xtest.Base.Tests.{if◌then◌else◌}

pub data Outcome {ℓ} (A : Type ℓ) : Type ℓ where
  done : A → Outcome A
  undefined : Outcome A
  timeout : Outcome A

infixl 5 ◌>>=◌
abbrev pub ◌>>=◌ {ℓ κ} : {A : Type ℓ} {B : Type κ} → Outcome A → (A → Outcome B) → Outcome B
done a >>= f = f a
undefined >>= f = undefined
timeout >>= f = timeout

-- Go on if the test holds; else the code's behaviour is undefined.
abbrev pub require {ℓ} : {A : Type ℓ} → Bool → Outcome A → Outcome A
require true m = m
require false m = undefined

-- What holds of the result, if there is one.
abbrev pub Ensures {ℓ} : {A : Type ℓ} → Outcome A → (A → Type 0) → Type 0
Ensures (done a) P = P a
Ensures undefined P = Unit {0}
Ensures timeout P = Unit {0}

-- A result under a test: one proof for each branch.
pub Ensures-if {ℓ} :
    {A : Type ℓ} (c : Bool) (x y : Outcome A) (P : A → Type 0)
    → (c ≡ true → Ensures x P)
    → (c ≡ false → Ensures y P)
    → Ensures (if c then x else y) P
Ensures-if true x y P yes_case no_case = yes_case refl
Ensures-if false x y P yes_case no_case = no_case refl

pub Ensures-weaken {ℓ} :
    {A : Type ℓ} (m : Outcome A) (P Q : A → Type 0)
    → ((a : A) → P a → Q a)
    → Ensures m P
    → Ensures m Q
Ensures-weaken (done a) P Q h p = h a p
Ensures-weaken undefined P Q h p = tt
Ensures-weaken timeout P Q h p = tt

abbrev pub Returns {ℓ} : {A : Type ℓ} → Outcome A → Type ℓ
Returns {A} m = (a : A) × (m ≡ done a)

pub Returns-if {ℓ} :
    {A : Type ℓ} (c : Bool) (x y : Outcome A) → Returns x → Returns y → Returns (if c then x else y)
Returns-if true x y r s = r
Returns-if false x y r s = s

pub Returns-bind {ℓ κ} :
    {A : Type ℓ} {B : Type κ} (m : Outcome A) (f : A → Outcome B)
    → Returns m
    → ((a : A) → Returns (f a))
    → Returns (m >>= f)
Returns-bind m f (a, e) r = let (b, q) = r a in (b, ap (λ t. t >>= f) e ∙ q)

pub Ensures-done {ℓ} :
    {A : Type ℓ} (m : Outcome A) (a : A) (P : A → Type 0) → m ≡ done a → Ensures m P → P a
Ensures-done m a P e p = subst (λ t. Ensures t P) e p
