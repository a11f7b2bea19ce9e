-- ===== src/StrongHarshad.antt =====
-- 387.c: adds up the primes whose first digits are a right-truncatable, strong Harshad number.
-- `isprime` and the table are those of test_prime.c, word for word, and `sum_digs`, `is_harshad` and
-- the loop of `is_right_truncatable` compute what those of 387b.c do.
pub mod Total
pub mod Calls
pub mod Memo
pub mod Tests
use xtest.Base.{
  ℕ, zero, suc, ◌+◌, ◌-◌, ◌/◌, ◌%◌, Bool, true, false, not, ◌==◌, List, Outcome, done, ◌>>=◌,
  require, u64,
}
use xtest.Prime.Sieve.{sieve}
use xtest.Prime.Trial.{Globals, isprime}
use xtest.Truncatable.{sum_digs, truncate_loop}

-- A 64-bit number has at most 20 digits.
unfoldable pub is_right_truncatable : ℕ → Outcome Bool
is_right_truncatable n = truncate_loop 21 n

abbrev pub if_truncatable : ℕ → Bool × Globals → Outcome (Bool × Globals)
if_truncatable i_trunc (false, g) = done (false, g)
if_truncatable i_trunc (true, g) = do b ← is_right_truncatable i_trunc; done (b, g)

abbrev pub if_prime : ℕ → Bool × Globals → Outcome (Bool × Globals)
if_prime i_trunc (false, g) = done (false, g)
if_prime i_trunc (true, g) = do
  s ← sum_digs i_trunc
  r ← require (not (s == 0)) (isprime g (i_trunc / s))
  if_truncatable i_trunc r

-- One round of the loop in `main`: whether `i` is added.
unfoldable pub strong_round : ℕ → Globals → Outcome (Bool × Globals)
strong_round i g = do r ← isprime g i; if_prime (i / 10) r

abbrev pub add_strong :
    (ℕ → Globals → Outcome (ℕ × Globals)) → ℕ → ℕ → Bool × Globals → Outcome (ℕ × Globals)
add_strong rest i sum (false, g) = rest sum g
add_strong rest i sum (true, g) = rest (u64 (sum + i)) g

-- `for (i = 11; i < pow(10, 10); i += 2, j++)`, with `n` rounds to go.
unfoldable pub strong_loop : ℕ → ℕ → ℕ → Globals → Outcome (ℕ × Globals)
strong_loop zero i sum g = done (sum, g)
strong_loop (suc n) i sum g = do r ← strong_round i g; add_strong (strong_loop n (i + 2)) i sum r

-- `inv_idx` is the array that `calloc` returns; `main` fixes the two limits, as 2 ^ 24 and 10 ^ 10.
unfoldable pub strong_main : List ℕ → ℕ → ℕ → Outcome (ℕ × Globals)
strong_main inv_idx inv_idx_limit limit = do
  q ← sieve inv_idx inv_idx_limit
  strong_loop ((limit - 10) / 2) 11 0
      (record { inv_idx = q; inv_idx_limit = inv_idx_limit; allall = 0; all = 0; misses = 0 })
