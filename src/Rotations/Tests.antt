-- ===== src/Rotations/Tests.antt =====
-- Rotations at concrete inputs.
use xtest.Base.{
  ℕ, ◌+◌, ◌-◌, ◌*◌, ◌^◌, ◌≡◌, arith, refl, ltb, if◌then◌else◌, done, List, replicate, length,
  length-replicate,
}
use xtest.Prime.Bitmap.{bits}
use xtest.Prime.Sieve.Correct.{IsPrimeTable}
use xtest.Prime.Wheel.{sieve2}
use xtest.Prime.Wheel.Correct.{sieve2_lem}
use xtest.Prime.Trial.{Globals}
use xtest.Rotations.{FloatMath, rotate, rotation_round, rotations_main}
use xtest.Rotations.Length.{IsFloatMath}
use xtest.Rotations.Circular.{Circular}
use xtest.Prime.Search.{Decides, Selected}
use xtest.Rotations.Correct.{round-Decides}
use xtest.Rotations.Correct.Counting.{rotations_main_lem}

abbrev digits_below_7 : ℕ → ℕ
digits_below_7 x =
    if ltb x 10
    then 1
    else if ltb x 100
    then 2
    else if ltb x 1000
    then 3
    else if ltb x 10000
    then 4
    else if ltb x 100000
    then 5
    else 6

abbrev exact_math : FloatMath
exact_math = record {
  log10_plus_one = digits_below_7;
  add_scaled = λ rest n last. rest + 10 ^ n * last;
}

exact_math-IsFloatMath : IsFloatMath exact_math
exact_math-IsFloatMath = record {
  above = λ x pos lt. ground arith;
  below = λ x pos lt. ground arith;
  exact = λ rest n last lt. refl;
}

rotate_runs : rotate exact_math 197 ≡ 719
unfolding rotate
rotate_runs = refl

rotations_main_lem_example :
    (xs : List ℕ) × (g : Globals) × (rotations_main exact_math 6
        (replicate (bits (2 ^ 20)) 0)
        (2 ^ 20)
        (10 ^ 6)
      ≡ done (length xs, g))
    × Selected Circular 2 (10 ^ 6 - 2) xs
rotations_main_lem_example =
    rotations_main_lem exact_math exact_math-IsFloatMath (replicate (bits (2 ^ 20)) 0) (2 ^ 20)
      (10 ^ 6) (omega arith) (omega arith) (omega arith) (length-replicate (bits (2 ^ 20)) 0)
      (omega arith)

million :
    (q : List ℕ) × (sieve2 (replicate (bits (2 ^ 20)) 0) (2 ^ 20) ≡ done q)
    × IsPrimeTable (2 ^ 20) q
million =
    sieve2_lem (replicate (bits (2 ^ 20)) 0) (2 ^ 20) (omega arith) (omega arith) (omega arith)
      (length-replicate (bits (2 ^ 20)) 0)

abbrev with_table : List ℕ → Globals
with_table q = record { inv_idx = q; inv_idx_limit = 2 ^ 20; allall = 0; all = 0; misses = 0 }

round-Decides_example :
    Decides
      (Circular 197)
      4
      (with_table million.0)
      (rotation_round exact_math 3 197 (with_table million.0))
round-Decides_example =
    round-Decides exact_math exact_math-IsFloatMath 2 197 (omega arith) (omega arith, omega arith) 3
      (with_table million.0) (omega arith)
      (record { table = million.2; covers = omega arith; room = omega arith })
