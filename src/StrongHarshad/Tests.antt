-- ===== src/StrongHarshad/Tests.antt =====
-- The limit that `main` of 387.c has, and a number with and without the memo.
use xtest.Base.{
  ℕ, ◌-◌, ◌/◌, List, replicate, length-replicate, undefined, ◌^◌, ◌≡◌, Bool, done, arith,
}
use xtest.Prime.Bitmap.{bits}
use xtest.Prime.Sieve.{sieve}
use xtest.Truncatable.{Memo, zeroed}
use xtest.Truncatable.Correct.{IsValid, zeroed-IsValid}
use xtest.StrongHarshad.{is_right_truncatable, strong_main}
use xtest.StrongHarshad.Memo.{is_right_truncatable-memo}
use xtest.StrongHarshad.Calls.{Overflows, start, strong_main_lem}

-- The array that `calloc` returns.
abbrev cleared : List ℕ
cleared = replicate (bits (2 ^ 24)) 0

strong_main_lem_example :
    (q : List ℕ) × (sieve cleared (2 ^ 24) ≡ done q)
    × Overflows ((10 ^ 10 - 10) / 2) 11 0 (start q (2 ^ 24))
    × (strong_main cleared (2 ^ 24) (10 ^ 10) ≡ undefined)
strong_main_lem_example =
    strong_main_lem cleared (2 ^ 24) (10 ^ 10) (omega arith) (omega arith) (omega arith)
      (length-replicate {A = ℕ} (bits (2 ^ 24)) 0) (omega arith) (omega arith)

is_right_truncatable-memo_example :
    (answer : Bool) × (after : Memo) × (is_right_truncatable 201 ≡ done answer)
    × (xtest.Truncatable.is_right_truncatable zeroed 201 ≡ done (answer, after))
    × IsValid after
is_right_truncatable-memo_example =
    is_right_truncatable-memo zeroed 201 (omega arith) zeroed-IsValid
