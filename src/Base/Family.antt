-- ===== src/Base/Family.antt =====
-- A value for each number: change at one place, and the sum over the first `n` places.
use xtest.Base.{
  ℕ, zero, suc, ◌+◌, ◌≤◌, ◌<◌, ◌≡◌, ◌≢◌, refl, ◌==◌, if◌then◌else◌, ℕ_discrete, dec_lt, arith,
}

abbrev pub change {ℓ} : {A : Type ℓ} → (ℕ → A) → ℕ → A → ℕ → A
change f i a j = if i == j then a else f j

pub sum_upto : (ℕ → ℕ) → ℕ → ℕ
sum_upto f zero = 0
sum_upto f (suc n) = sum_upto f n + f n

module _ (f g : ℕ → ℕ) (i : ℕ) (same : (j : ℕ) → j ≢ i → f j ≡ g j) where
  sum_below : (n : ℕ) → n ≤ i → sum_upto f n ≡ sum_upto g n
  unfolding sum_upto
  sum_below zero h = refl
  sum_below (suc n) h = omega (arith, sum_below n (omega arith), same n (omega arith))

  -- Two families that differ at `i` alone.
  pub sum_one : (n : ℕ) → i < n → sum_upto f n + g i ≡ sum_upto g n + f i
  unfolding sum_upto
  sum_one zero h = absurd (omega arith)
  sum_one (suc n) h = elim (ℕ_discrete n i) [
    | yes last ↦ ground (arith, sum_below n)
    | no more ↦ omega (arith, sum_one n (omega arith), same n more)
  ]

pub term-le-sum : (f : ℕ → ℕ) (n i : ℕ) → i < n → f i ≤ sum_upto f n
unfolding sum_upto
term-le-sum f zero i h = absurd (omega arith)
term-le-sum f (suc n) i h = elim (ℕ_discrete i n) [
  | yes last ↦ rw last (omega arith)
  | no more ↦ omega (arith, term-le-sum f n i (omega arith))
]

pub sum_zero : (n : ℕ) → sum_upto (λ _. 0) n ≡ 0
unfolding sum_upto
sum_zero zero = refl
sum_zero (suc n) = omega (arith, sum_zero n)

pub change-same : {A : Type 0} (f : ℕ → A) (i : ℕ) (a : A) → change f i a i ≡ a
change-same f i a = ground arith

pub change-other : {A : Type 0} (f : ℕ → A) (i : ℕ) (a : A) (j : ℕ) → j ≢ i → change f i a j ≡ f j
change-other f i a j off = ground arith

pub sum_upto-ext : (f g : ℕ → ℕ) (n : ℕ) → ((k : ℕ) → f k ≡ g k) → sum_upto f n ≡ sum_upto g n
unfolding sum_upto
sum_upto-ext f g zero same = refl
sum_upto-ext f g (suc n) same = omega (arith, sum_upto-ext f g n same, same n)

pub sum_upto-suc : (f : ℕ → ℕ) (n : ℕ) → sum_upto f (suc n) ≡ f 0 + sum_upto (λ k. f (suc k)) n
unfolding sum_upto
sum_upto-suc f zero = omega arith
sum_upto-suc f (suc n) = omega (arith, sum_upto-suc f n)

pub sum_ones : (f : ℕ → ℕ) (n : ℕ) → ((i : ℕ) → i < n → f i ≡ 1) → sum_upto f n ≡ n
unfolding sum_upto
sum_ones f zero all = refl
sum_ones f (suc n) all =
    omega (arith, sum_ones f n (λ i lt. all i (omega arith)), all n (omega arith))

pub sum_none : (f : ℕ → ℕ) (n : ℕ) → ((i : ℕ) → i < n → f i ≡ 0) → sum_upto f n ≡ 0
unfolding sum_upto
sum_none f zero none = refl
sum_none f (suc n) none =
    omega (arith, sum_none f n (λ i lt. none i (omega arith)), none n (omega arith))

pub some_term : (f : ℕ → ℕ) (n : ℕ) → 0 < sum_upto f n → (i : ℕ) × (i < n) × (0 < f i)
unfolding sum_upto
some_term f zero pos = absurd (omega arith)
some_term f (suc n) pos = elim (dec_lt 0 (f n)) [
  | yes here ↦ (n, omega arith, here)
  | no below ↦ let (i, lt, p) = some_term f n (omega arith) in (i, omega arith, p)
]
