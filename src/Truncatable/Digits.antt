-- ===== src/Truncatable/Digits.antt =====
-- Digit sums.
use xtest.Base.{
  ℕ, zero, suc, ◌+◌, ◌*◌, ◌/◌, ◌%◌, ◌^◌, ◌<◌, ◌≡◌, done, u64, arith, refl, ap, ◌∙◌, sym, ℕ_discrete,
}
use native.Mathlib.Nat.{zero-div, div-div-eq-div-mul, pow-succ'}
use xtest.Base.Family.{sum_upto, sum_upto-suc, sum_upto-ext, sum_zero}
use xtest.Truncatable.{sum_digs_loop, sum_digs}

abbrev pub digit : ℕ → ℕ → ℕ
digit n k = n / 10 ^ k % 10

-- The sum of the twenty last digits.
abbrev pub digit_sum : ℕ → ℕ
digit_sum n = sum_upto (digit n) 20

pub prefix-suc : (n k : ℕ) → n / 10 ^ suc k ≡ n / 10 / 10 ^ k
prefix-suc n k = ap (λ t. n / t) (pow-succ' 10 k) ∙ sym (div-div-eq-div-mul n 10 (10 ^ k))

digits-suc : (n fuel : ℕ) → sum_upto (digit n) (suc fuel) ≡ n % 10 + sum_upto (digit (n / 10)) fuel
digits-suc n fuel = omega (
  arith,
  sum_upto-suc (digit n) fuel,
  sum_upto-ext (λ k. digit n (suc k)) (digit (n / 10)) fuel
      (λ k. ap (λ t. t % 10) (prefix-suc n k)),
)

zero_digits : (fuel : ℕ) → sum_upto (digit 0) fuel ≡ 0
zero_digits fuel =
    sum_upto-ext (digit 0) (λ _. 0) fuel (λ k. ap (λ t. t % 10) (zero-div (10 ^ k))) ∙ sum_zero fuel

loop_end : (fuel s : ℕ) → sum_digs_loop (suc fuel) 0 s ≡ done s
unfolding sum_digs_loop
loop_end fuel s = refl

loop_step :
    (fuel n s : ℕ)
    → 0 < n
    → s + 9 < 2 ^ 64
    → sum_digs_loop (suc fuel) n s ≡ sum_digs_loop fuel (n / 10) (s + n % 10)
unfolding sum_digs_loop
loop_step fuel n s pos small =
    let e : u64 (s + n % 10) ≡ s + n % 10 = omega arith in rw e (ground arith)

sum_digs_loop_lem :
    (fuel n s : ℕ)
    → n < 10 ^ fuel
    → s + 9 * fuel < 2 ^ 64
    → sum_digs_loop (suc fuel) n s ≡ done (s + sum_upto (digit n) fuel)
sum_digs_loop_lem fuel zero s h small = loop_end fuel s ∙ ap done (omega (arith, zero_digits fuel))
sum_digs_loop_lem zero (suc n) s h small = absurd (omega arith)
sum_digs_loop_lem (suc fuel) (suc n) s h small =
    loop_step (suc fuel) (suc n) s (omega arith) (omega arith)
    ∙ sum_digs_loop_lem fuel (suc n / 10) (s + suc n % 10) (omega (arith, pow-succ' 10 fuel))
        (omega arith)
    ∙ ap done (omega (arith, digits-suc (suc n) fuel))

digits_zero : (fuel n : ℕ) → n < 10 ^ fuel → sum_upto (digit n) fuel ≡ 0 → n ≡ 0
digits_zero zero n h e = omega arith
digits_zero (suc fuel) n h e = omega (
  arith,
  digits-suc n fuel,
  digits_zero fuel (n / 10) (omega (arith, pow-succ' 10 fuel)) (omega (arith, digits-suc n fuel)),
)

-- On every 64-bit number `sum_digs` ends and returns the sum of the decimal digits.
pub sum_digs_lem : (n : ℕ) → n < 2 ^ 64 → sum_digs n ≡ done (digit_sum n)
unfolding sum_digs
sum_digs_lem n h = sum_digs_loop_lem 20 n 0 (omega arith) (omega arith) ∙ ap done (omega arith)

pub digit_sum-positive : (n : ℕ) → n < 2 ^ 64 → 0 < n → 0 < digit_sum n
digit_sum-positive n h pos = elim (ℕ_discrete (digit_sum n) 0) [
  | yes none ↦ absurd (omega (arith, digits_zero 20 n (omega arith) none))
  | no some ↦ omega arith
]
