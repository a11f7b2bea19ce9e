-- ===== src/TwoSided.antt =====
-- 37.c: the primes that stay prime when digits are taken off either end. `isprime` and the table are
-- those of test_prime.c, word for word; the arithmetic in `double` is a parameter.
pub mod Cuts
pub mod Correct
pub mod Tests
use xtest.Base.{
  ℕ, zero, suc, ◌+◌, ◌-◌, ◌/◌, ◌%◌, Bool, true, false, ◌&&◌, ltb, if◌then◌else◌, Outcome, done,
  timeout, ◌>>=◌, require, List, u64,
}
use xtest.Prime.Wheel.{sieve2}
use xtest.Prime.Trial.{Globals, isprime}

-- What `main` adds up.
pub record Totals : Type 0 where
  pub sum : ℕ
  pub sum2 : ℕ

-- The tests that end either loop, after the call of `isprime` on what is left.
abbrev pub after_cut :
    (Globals → ℕ → Outcome (Bool × Globals)) → ℕ → Bool × Globals → Outcome (Bool × Globals)
after_cut rest tmp (false, g) = done (false, g)
after_cut rest tmp (true, g) = let more = rest g tmp in if ltb tmp 10 then done (true, g) else more

-- The first `for (;;)`.
unfoldable pub drop_last_loop : ℕ → Globals → ℕ → Outcome (Bool × Globals)
drop_last_loop zero g tmp = timeout
drop_last_loop (suc fuel) g tmp = do
  r ← isprime g (tmp / 10)
  after_cut (drop_last_loop fuel) (tmp / 10) r

-- Over `(int) pow(10, (int) trunc(log10(tmp)))`.
module _ (leading_place : ℕ → ℕ) where
  abbrev pub drop_first : ℕ → Outcome ℕ
  drop_first tmp = require (ltb 0 (leading_place tmp)) (done (tmp % leading_place tmp))

  -- The second `for (;;)`.
  unfoldable pub drop_first_loop : ℕ → Globals → ℕ → Outcome (Bool × Globals)
  drop_first_loop zero g tmp = timeout
  drop_first_loop (suc fuel) g tmp = do
    cut ← drop_first tmp
    r ← isprime g cut
    after_cut (drop_first_loop fuel) cut r

  abbrev pub and_first : Bool → Bool × Globals → Outcome (Bool × Globals)
  and_first allprime (b, g) = done (allprime && b, g)

  -- The second loop runs whatever the first has found.
  abbrev pub second_loop : ℕ → ℕ → Bool × Globals → Outcome (Bool × Globals)
  second_loop fuel i (allprime, g) = do r ← drop_first_loop fuel g i; and_first allprime r

  abbrev pub when_prime : ℕ → ℕ → Bool × Globals → Outcome (Bool × Globals)
  when_prime fuel i (false, g) = done (false, g)
  when_prime fuel i (true, g) = do r ← drop_last_loop fuel g i; second_loop fuel i r

  -- One round of the loop in `main`: whether `i` is counted.
  unfoldable pub truncation_round : ℕ → ℕ → Globals → Outcome (Bool × Globals)
  truncation_round fuel i g = do r ← isprime g i; when_prime fuel i r

  abbrev pub count : ℕ → Bool → Totals → Totals
  count i false t = t
  count i true t = record { sum = u64 (t.sum + 1); sum2 = u64 (t.sum2 + i) }

  abbrev pub add_round :
      (Totals → Globals → Outcome (Totals × Globals))
      → ℕ
      → Totals
      → Bool × Globals
      → Outcome (Totals × Globals)
  add_round rest i t (b, g) = rest (count i b t) g

  -- `for (i = 11; i < limit; i++)`, with `n` rounds to go.
  unfoldable pub count_truncatable : ℕ → ℕ → ℕ → Totals → Globals → Outcome (Totals × Globals)
  count_truncatable zero fuel i t g = done (t, g)
  count_truncatable (suc n) fuel i t g = do
    r ← truncation_round fuel i g
    add_round (count_truncatable n fuel (i + 1)) i t r

  -- `inv_idx` is the array that `calloc` returns, and `inv_idx_limit` and `limit` are the two numbers
  -- that `main` fixes.
  unfoldable pub truncation_main : ℕ → List ℕ → ℕ → ℕ → Outcome (Totals × Globals)
  truncation_main fuel inv_idx inv_idx_limit limit = do
    q ← sieve2 inv_idx inv_idx_limit
    count_truncatable (limit - 11) fuel 11 (record { sum = 0; sum2 = 0 })
        (record { inv_idx = q; inv_idx_limit = inv_idx_limit; allall = 0; all = 0; misses = 0 })
