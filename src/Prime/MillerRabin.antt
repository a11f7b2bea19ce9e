-- ===== src/Prime/MillerRabin.antt =====
-- `miller_rabin_test` of test_prime.c.
pub mod Correct
use xtest.Base.{
  ℕ, zero, suc, ◌+◌, ◌-◌, ◌*◌, ◌/◌, ◌%◌, ◌^◌, ◌≡◌, Bool, true, false, ◌||◌, Outcome, done,
  undefined, timeout, ◌>>=◌, require, ltb, ◌==◌, if◌then◌else◌, u64,
}
use xtest.Prime.Modexp.{modexp}

pub record Split : Type 0 where
  pub d : ℕ
  pub s : ℕ

-- `while (d % 2 == 0) { d /= 2; s++; }`: at 0 the loop does not end.
unfoldable pub split_loop : ℕ → ℕ → ℕ → Outcome Split
split_loop zero d s = timeout
split_loop (suc fuel) d s =
    let round = split_loop fuel (d / 2) (s + 1) in
    if d % 2 == 0 then round else done (record { d = d; s = s })

-- `for (r = 1; r < s; r++)`, with the number of rounds left: square `x` in `uint128` until it is
-- `n - 1`.
unfoldable pub square_loop : ℕ → ℕ → ℕ → Bool
square_loop zero x n = false
square_loop (suc rounds) x n =
    let x' = u64 (x * x % 2 ^ 128 % n) in
    let rest = square_loop rounds x' n in if x' == u64 (n + 2 ^ 64 - 1) then true else rest

-- A 64-bit number is halved at most 63 times before it is odd.
unfoldable pub miller_rabin_test : ℕ → ℕ → Outcome Bool
miller_rabin_test n a = do
  let pred = u64 (n + 2 ^ 64 - 1)
  w ← split_loop 65 pred 0
  x ← modexp a w.d n
  done (if x == 1 || x == pred then true else square_loop (w.s - 1) x n)
