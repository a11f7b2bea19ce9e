-- ===== src/Rotations/Circular.antt =====
-- Numbers all of whose rotations are prime.
use xtest.Base.{ℕ, zero, suc, ◌%◌, ◌/◌, ◌≤◌, ◌≡◌, arith, refl, ap, ◌∙◌, sym, dec_lt, subst}
use xtest.Prime.Sieve.Spec.{IsPrime}
use xtest.Rotations.Spin.{turn, spin, turn-bounds}
use xtest.Decimal.{HasDigits, digits_unique, pow_pos, ten_pow}

-- `i` has `w + 1` digits, and each of its rotations is prime.
abbrev pub Circular : ℕ → Type 0
Circular i = (w : ℕ) × HasDigits w i × ((k : ℕ) → IsPrime (spin w k i))

-- One composite rotation is enough.
pub not-Circular : (w k i : ℕ) → HasDigits w i → ¬ (IsPrime (spin w k i)) → ¬ (Circular i)
not-Circular w k i h fails (v, h', all) =
    fails (subst (λ u. IsPrime (spin u k i)) (digits_unique v w i h' h) (all k))

-- A sequence that is back at its start after `suc j` turns takes no other values.
returns : (w j i k : ℕ) → spin w (suc j) i ≡ i → (m : ℕ) × (m ≤ j) × (spin w k i ≡ spin w m i)
returns w j i zero back = (0, omega arith, refl)
returns w j i (suc k) back =
    let (m, le, e) = returns w j i k back in
    elim (dec_lt m j) [
      | yes lt ↦ (suc m, omega arith, ap (turn w) e)
      | no ge ↦
          let same : m ≡ j = omega arith in
          (0, omega arith, ap (turn w) (e ∙ ap (λ n. spin w n i) same) ∙ back)
    ]

pub Circular-of :
    (w j i : ℕ)
    → HasDigits w i
    → spin w (suc j) i ≡ i
    → ((m : ℕ) → m ≤ j → IsPrime (spin w m i))
    → Circular i
Circular-of w j i h back primes =
    (w, h, λ k. let (m, le, e) = returns w j i k back in subst IsPrime (sym e) (primes m le))

last_digit : (y : ℕ) → 10 ≤ y → IsPrime y → 1 ≤ y % 10
last_digit y big prime = elim (dec_lt 0 (y % 10)) [
  | yes h ↦ h
  | no h ↦ absurd (prime.1 (2, y / 2, omega arith, omega arith, omega arith))
]

-- A prime keeps its number of digits when it is turned.
pub turn-HasDigits : (w y : ℕ) → HasDigits w y → IsPrime y → HasDigits w (turn w y)
turn-HasDigits zero y h prime = (omega arith, omega arith)
turn-HasDigits (suc w) y (lo, hi) prime =
    let p = pow_pos w in turn-bounds (suc w) y lo hi (last_digit y (omega (arith, ten_pow w)) prime)
