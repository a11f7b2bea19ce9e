-- ===== src/TwoSided/Tests.antt =====
-- The truncations at concrete inputs.
use xtest.Base.{
  ℕ, ◌-◌, ◌^◌, ◌≡◌, arith, refl, dec_lt, ltb, if◌then◌else◌, done, List, length, replicate,
  length-replicate,
}
use xtest.Prime.Bitmap.{bits}
use xtest.Prime.Trial.{Globals}
use xtest.Prime.Search.{Selected}
use xtest.TwoSided.{drop_first, truncation_main}
use xtest.TwoSided.Cuts.{TwoSidedPrime}
use xtest.TwoSided.Correct.{IsLeadingPlace}
use xtest.TwoSided.Correct.Counting.{total, truncation_main_lem}

abbrev place_below : ℕ → ℕ
place_below x =
    if ltb x 10
    then 1
    else if ltb x 100
    then 10
    else if ltb x 1000
    then 100
    else if ltb x 10000
    then 1000
    else if ltb x 100000
    then 10000
    else 100000

place_below-IsLeadingPlace : IsLeadingPlace place_below
place_below-IsLeadingPlace x pos lt = elim (dec_lt x 10) [
  | yes a ↦ (0, (omega arith, omega arith), ground arith)
  | no a ↦ elim (dec_lt x 100) [
    | yes b ↦ (1, (omega arith, omega arith), ground arith)
    | no b ↦ elim (dec_lt x 1000) [
      | yes c ↦ (2, (omega arith, omega arith), ground arith)
      | no c ↦ elim (dec_lt x 10000) [
        | yes d ↦ (3, (omega arith, omega arith), ground arith)
        | no d ↦ elim (dec_lt x 100000) [
          | yes e ↦ (4, (omega arith, omega arith), ground arith)
          | no e ↦ (5, (omega arith, omega arith), ground arith)
        ]
      ]
    ]
  ]
]

drop_first_runs : drop_first place_below 3797 ≡ done 797
drop_first_runs = refl

truncation_main_lem_example :
    (xs : List ℕ) × (g : Globals) × (truncation_main place_below 5
        (replicate (bits (2 ^ 20)) 0)
        (2 ^ 20)
        (10 ^ 6)
      ≡ done (record { sum = length xs; sum2 = total xs }, g))
    × Selected TwoSidedPrime 11 (10 ^ 6 - 11) xs
truncation_main_lem_example =
    truncation_main_lem place_below place_below-IsLeadingPlace (replicate (bits (2 ^ 20)) 0)
      (2 ^ 20) (10 ^ 6) (omega arith) (omega arith) (omega arith)
      (length-replicate (bits (2 ^ 20)) 0) (omega arith)
