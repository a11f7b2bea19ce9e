-- ===== src/Prime/Wheel.antt =====
-- `sieve2` of test_prime.c: Eratosthenes over the numbers that 2, 3 and 5 do not divide.
pub mod Stages
pub mod Spokes
pub mod Correct
use xtest.Base.{
  ℕ, zero, suc, ◌+◌, ◌*◌, ◌%◌, Bool, true, false, List, [], ◌∷◌, Outcome, done, timeout, ◌>>=◌, ltb,
  if◌then◌else◌, u64,
}
use xtest.Prime.Bitmap.{bit, setbit, bits, load}
use xtest.Prime.Sieve.{memset, mark}

abbrev pub gaps : List ℕ
gaps = 4 ∷ 2 ∷ 4 ∷ 2 ∷ 4 ∷ 6 ∷ 2 ∷ 6 ∷ []

-- `for (i = 7; i*i < limit; )`
unfoldable pub wheel_loop : ℕ → List ℕ → ℕ → ℕ → ℕ → Outcome (List ℕ)
wheel_loop zero p i gap_idx limit = timeout
wheel_loop (suc fuel) p i gap_idx limit =
    let round = (do
      b ← bit p i
      q ← (if b then mark (suc limit) p (u64 (i * i)) (u64 (2 * i)) limit else done p)
      gap ← load gaps gap_idx
      wheel_loop fuel q (i + gap) ((gap_idx + 1) % 8) limit) in
    if ltb (u64 (i * i)) limit then round else done p

-- `for (j = i; j < limit; j += 2 * i) setbit(p, j, 0); setbit(p, i, 1);`
unfoldable pub strike : List ℕ → ℕ → ℕ → Outcome (List ℕ)
strike p i limit = do q ← mark (suc limit) p i (2 * i) limit; setbit q i true

unfoldable pub sieve2 : List ℕ → ℕ → Outcome (List ℕ)
sieve2 p limit = do
  q ← memset p (bits limit)
  a ← strike q 3 limit
  b ← strike a 5 limit
  wheel_loop (suc limit) b 7 0 limit
