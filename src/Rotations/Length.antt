-- ===== src/Rotations/Length.antt =====
-- `rotate` of a number of `w + 1` digits.
use xtest.Base.{ℕ, zero, suc, ◌+◌, ◌*◌, ◌/◌, ◌%◌, ◌^◌, ◌≤◌, ◌<◌, ◌≡◌, arith, ◌∙◌}
use xtest.Rotations.{FloatMath, rotate}
use xtest.Rotations.Spin.{turn}
use xtest.Decimal.{to_suc, pow_pos, pow_mono, pow_less}

-- What the program relies on: `log10` is exact enough for numbers below 10 ^ 6, and sums below 2 ^ 53
-- are computed without rounding.
pub record IsFloatMath (fm : FloatMath) : Type 0 where
  pub above : (x : ℕ) → 0 < x → x < 10 ^ 6 → x < 10 ^ fm.log10_plus_one x
  pub below : (x : ℕ) → 0 < x → x < 10 ^ 6 → 10 ^ fm.log10_plus_one x ≤ 10 * x
  pub exact :
      (rest n last : ℕ)
      → rest + 10 ^ n * last < 2 ^ 53
      → fm.add_scaled rest n last ≡ rest + 10 ^ n * last

same_length :
    (w n : ℕ) (rest : ℕ)
    → 10 ^ w ≤ 10 * rest
    → rest < 10 ^ w
    → rest < 10 ^ n
    → 10 ^ n ≤ 10 * rest
    → n ≡ w
same_length w n rest lo hi above below =
    let a = pow_less n (w + 1) (omega (arith, to_suc w)) in
    let b = pow_less w (n + 1) (omega (arith, to_suc n)) in omega arith

module _ (fm : FloatMath) (law : IsFloatMath fm) where
  one_digit : (y : ℕ) → y < 10 → rotate fm y ≡ y
  unfolding rotate
  one_digit y lt = ground arith

  more_digits :
      (w y : ℕ) → w + 1 ≤ 5 → 10 ^ (w + 1) ≤ y → y < 10 ^ (w + 1 + 1) → rotate fm y ≡ turn (w + 1) y
  unfolding rotate
  more_digits w y le lo hi =
      let rest = y / 10 in
      let pos = pow_pos w in
      let ten = to_suc w in
      let hundred = to_suc (w + 1) in
      let small = pow_mono (w + 1 + 1) 6 (omega arith) in
      let n : fm.log10_plus_one rest ≡ w + 1 =
        same_length (w + 1) (fm.log10_plus_one rest) rest (omega arith) (omega arith)
          (law.above rest (omega arith) (omega arith))
          (law.below rest (omega arith) (omega arith)) in
      let digit : 10 ^ (w + 1) * (y % 10) ≤ 10 ^ (w + 1) * 9 = grind arith in
      let sum = law.exact rest (w + 1) (y % 10) (omega arith) in ground (arith, n, sum)

  pub rotate-turn : (w y : ℕ) → w ≤ 5 → 10 ^ w ≤ y → y < 10 ^ (w + 1) → rotate fm y ≡ turn w y
  rotate-turn zero y le lo hi = one_digit y (omega arith) ∙ omega arith
  rotate-turn (suc w) y le lo hi =
      let e : suc w ≡ w + 1 = omega arith in
      rw e (more_digits w y (omega arith) (rw (← e) lo) (rw (← e) hi))
