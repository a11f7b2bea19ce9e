-- ===== src/Rotations.antt =====
-- 35.c: counts the primes whose digits, rotated, give primes only. `isprime` and the table are those
-- of test_prime.c, word for word; the arithmetic in
-- `double` is a parameter.
pub mod Spin
pub mod Length
pub mod Circular
pub mod Correct
pub mod Tests
use xtest.Base.{
  u64, ℕ, zero, suc, ◌+◌, ◌-◌, ◌/◌, ◌%◌, Bool, true, false, ltb, ◌==◌, if◌then◌else◌, Outcome, done,
  timeout, ◌>>=◌, List,
}
use xtest.Prime.Wheel.{sieve2}
use xtest.Prime.Trial.{Globals, isprime}

-- `(unsigned long)(log10(x) + 1)`, and `(unsigned long)(rest + pow(10, n) * last)`, both computed in
-- `double`.
pub record FloatMath : Type 0 where
  pub log10_plus_one : ℕ → ℕ
  pub add_scaled : ℕ → ℕ → ℕ → ℕ

module _ (fm : FloatMath) where
  unfoldable pub rotate : ℕ → ℕ
  rotate l =
      let last = l % 10 in
      let rest = l / 10 in
      let n = fm.log10_plus_one rest in if ltb l 10 then l else fm.add_scaled rest n last

  -- After the call of `isprime` on the next rotation.
  abbrev pub after_rotation :
      (Globals → ℕ → Outcome (Bool × Globals)) → ℕ → ℕ → Bool × Globals → Outcome (Bool × Globals)
  after_rotation rest orig tmp (false, g) = done (false, g)
  after_rotation rest orig tmp (true, g) =
      let more = rest g tmp in if tmp == orig then done (true, g) else more

  -- `for (;;)`: whether `allprime` is left set.
  unfoldable pub rotation_loop : ℕ → ℕ → Globals → ℕ → Outcome (Bool × Globals)
  rotation_loop zero orig g tmp = timeout
  rotation_loop (suc fuel) orig g tmp = do
    r ← isprime g (rotate tmp)
    after_rotation (rotation_loop fuel orig) orig (rotate tmp) r

  abbrev pub when_prime : ℕ → ℕ → Bool × Globals → Outcome (Bool × Globals)
  when_prime fuel i (false, g) = done (false, g)
  when_prime fuel i (true, g) = rotation_loop fuel i g i

  -- One round of the loop in `main`: whether `sum` is raised.
  unfoldable pub rotation_round : ℕ → ℕ → Globals → Outcome (Bool × Globals)
  rotation_round fuel i g = do r ← isprime g i; when_prime fuel i r

  abbrev pub add_round :
      (ℕ → Globals → Outcome (ℕ × Globals)) → ℕ → Bool × Globals → Outcome (ℕ × Globals)
  add_round rest sum (b, g) = rest (if b then u64 (sum + 1) else sum) g

  -- `for (i = 2; i < limit; i++)`, with `n` rounds to go.
  unfoldable pub count_rotations : ℕ → ℕ → ℕ → ℕ → Globals → Outcome (ℕ × Globals)
  count_rotations zero fuel i sum g = done (sum, g)
  count_rotations (suc n) fuel i sum g = do
    r ← rotation_round fuel i g
    add_round (count_rotations n fuel (i + 1)) sum r

  -- `inv_idx` is the array that `calloc` returns, and `inv_idx_limit` and `limit` are the two numbers
  -- that `main` fixes.
  unfoldable pub rotations_main : ℕ → List ℕ → ℕ → ℕ → Outcome (ℕ × Globals)
  rotations_main fuel inv_idx inv_idx_limit limit = do
    q ← sieve2 inv_idx inv_idx_limit
    count_rotations (limit - 2) fuel 2 0
        (record { inv_idx = q; inv_idx_limit = inv_idx_limit; allall = 0; all = 0; misses = 0 })
