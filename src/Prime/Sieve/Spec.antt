-- ===== src/Prime/Sieve/Spec.antt =====
-- Primes and composites.
use xtest.Base.{ℕ, ◌*◌, ◌+◌, ◌/◌, ◌%◌, ◌<◌, ◌≤◌, ◌≡◌, ap, arith, ◌⊎◌, inl, inr, dec_lt}
use native.Mathlib.Decide.{dec_le}

abbrev pub Composite : ℕ → Type 0
Composite n = (a b : ℕ) × (1 < a) × (1 < b) × (n ≡ a * b)

abbrev pub IsPrime : ℕ → Type 0
IsPrime n = (1 < n) × ¬ (Composite n)

-- A divisor of `n` below `i` that is no greater than its cofactor.
abbrev pub Struck : ℕ → ℕ → Type 0
Struck i n = (d k : ℕ) × (1 < d) × (d < i) × (d ≤ k) × (n ≡ d * k)

pub even-mul : (i k : ℕ) → i % 2 ≡ 0 → i * k % 2 ≡ 0
even-mul i k h =
    let e : i * k ≡ 2 * (i / 2 * k) =
      let e : i ≡ 2 * (i / 2) = omega arith in omega (arith, ap (λ (t : ℕ). t * k) e) in
    omega arith

pub Struck-suc : (i n : ℕ) → Struck i n → Struck (i + 1) n
Struck-suc i n (d, k, p, lt, le, e) = (d, k, p, omega arith, le, e)

-- One more candidate strikes its own multiples.
pub Struck-cases : (i n : ℕ) → Struck (i + 1) n → Struck i n ⊎ ((k : ℕ) × (i ≤ k) × (n ≡ i * k))
Struck-cases i n (d, k, p, lt, le, e) = elim (dec_lt d i) [
  | yes below ↦ inl (d, k, p, below, le, e)
  | no above ↦
      let same : d ≡ i = omega arith in
      inr (k, omega arith, omega (arith, ap (λ (t : ℕ). t * k) same))
]

-- What a struck number strikes is struck already.
pub Struck-mul : (i k : ℕ) → Struck i i → i ≤ k → Struck i (i * k)
Struck-mul i k (d, m, p, lt, le, e) far =
    (d, m * k, p, lt, grind arith, omega (arith, ap (λ (t : ℕ). t * k) e))

lt_of_square : (a b i : ℕ) → a ≤ b → a * b < i * i → a < i
lt_of_square a b i le h = elim (dec_lt a i) [
  | yes lt ↦ lt
  | no ge ↦ absurd (let q : i * i ≤ a * b = grind arith in omega arith)
]

-- Up to the square root every composite is struck.
pub Struck-of_Composite : (i n : ℕ) → n < i * i → Composite n → Struck i n
Struck-of_Composite i n small (a, b, pa, pb, e) = elim (dec_le a b) [
  | yes le ↦ (a, b, pa, lt_of_square a b i le (omega arith), le, e)
  | no gt ↦ (b, a, pb, lt_of_square b a i (omega arith) (omega arith), omega arith, omega arith)
]

pub Composite-of_Struck : (i n : ℕ) → Struck i n → Composite n
Composite-of_Struck i n (d, k, p, lt, le, e) = (d, k, p, omega arith, e)
