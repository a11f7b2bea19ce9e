-- ===== src/Decimal.antt =====
-- Powers of ten, and the number of digits.
use native.Mathlib.Nat.{pow-suc}
use xtest.Base.{ℕ, zero, suc, ◌+◌, ◌-◌, ◌*◌, ◌^◌, ◌≤◌, ◌<◌, ◌≡◌, arith, ap, dec_lt}
use xtest.Base.Arith.{pow-add}

pub pow_pos : (n : ℕ) → 0 < 10 ^ n
pow_pos zero = omega arith
pow_pos (suc n) = omega (arith, pow_pos n)

pub ten_pow : (n : ℕ) → 10 ^ suc n ≡ 10 * 10 ^ n
ten_pow n = omega (arith, pow-suc 10 n)

pub to_suc : (n : ℕ) → 10 ^ (n + 1) ≡ 10 * 10 ^ n
to_suc n = let e : n + 1 ≡ suc n = omega arith in rw e (ten_pow n)

pub pow_mono : (m n : ℕ) → m ≤ n → 10 ^ m ≤ 10 ^ n
pow_mono m n le =
    let e : n ≡ m + (n - m) = omega arith in
    let p = pow_pos (n - m) in
    let q = pow_pos m in grind (arith, pow-add 10 m (n - m), ap (λ k. 10 ^ k) e)

pub pow_less : (m n : ℕ) → 10 ^ m < 10 ^ n → m < n
pow_less m n lt = elim (dec_lt m n) [
  | yes h ↦ h
  | no h ↦ let p = pow_mono n m (omega arith) in absurd (omega arith)
]

abbrev pub HasDigits : ℕ → ℕ → Type 0
HasDigits w y = (10 ^ w ≤ y) × (y < 10 ^ (w + 1))

pub digits_unique : (v w i : ℕ) → HasDigits v i → HasDigits w i → v ≡ w
digits_unique v w i (a, b) (c, d) =
    let p = pow_less v (w + 1) (omega arith) in
    let q = pow_less w (v + 1) (omega arith) in omega arith

one_more : (n : ℕ) → 10 ^ (n + 1) ≡ 10 ^ suc n
one_more n = ap (λ k. 10 ^ k) (omega arith)

pub digits_of : (n i : ℕ) → 0 < i → i < 10 ^ (n + 1) → (w : ℕ) × (w ≤ n) × HasDigits w i
digits_of zero i pos lt = (0, omega arith, (omega arith, lt))
digits_of (suc n) i pos lt = elim (dec_lt i (10 ^ (n + 1))) [
  | yes small ↦ let (w, le, h) = digits_of n i pos small in (w, omega arith, h)
  | no large ↦ (suc n, omega arith, (let e = one_more n in omega arith, lt))
]
