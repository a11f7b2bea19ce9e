-- ===== src/Factorials.antt =====
-- 381.c: `fact_mod` and `t`, the sum of five factorials modulo a prime. 35.c and 37.c have copies, which
-- they do not call.
pub mod Correct
pub mod Tests
use xtest.Base.{
  ℕ, zero, suc, ◌+◌, ◌-◌, ◌*◌, ◌%◌, ◌^◌, not, ◌==◌, ltb, Outcome, done, ◌>>=◌, require, u64,
}

abbrev pub u128 : ℕ → ℕ
u128 n = n % 2 ^ 128

-- `for (int i = 1; i <= n; i++)`, with the rounds to go; the step past the largest `int` is undefined.
unfoldable pub fact_loop : ℕ → ℕ → ℕ → ℕ → Outcome ℕ
fact_loop zero i res p = done res
fact_loop (suc rounds) i res p =
    let rest = fact_loop rounds (i + 1) (u128 (res * i) % p) p in
    require (not (p == 0)) (require (ltb i (2 ^ 31 - 1)) rest)

unfoldable pub fact_mod : ℕ → ℕ → Outcome ℕ
fact_mod n p = fact_loop n 1 1 p

-- `for (k = 1; k <= 5; k++)`, with the rounds to go.
unfoldable pub t_loop : ℕ → ℕ → ℕ → ℕ → Outcome ℕ
t_loop zero k sum p = done sum
t_loop (suc rounds) k sum p = do
  f ← fact_mod (u64 (p + 2 ^ 64 - k)) p
  t_loop rounds (k + 1) (u128 (sum + f)) p

unfoldable pub t : ℕ → Outcome ℕ
t p = do sum ← t_loop 5 1 0 p; require (not (p == 0)) (done (u64 (sum % p)))
