-- ===== src/Prime/Sieve.antt =====
-- `sieve` of test_prime.c: Eratosthenes over the bits of the odd numbers.
pub mod Spec
pub mod Mark
pub mod Correct
use xtest.Base.{
  ℕ, zero, suc, ◌+◌, ◌*◌, ◌≡◌, refl, Bool, true, false, List, ◌∷◌, [], ◌++◌, length, drop,
  replicate, Outcome, done, undefined, timeout, ◌>>=◌, require, ltb, leb, if◌then◌else◌, u64,
}
use xtest.Prime.Bitmap.{bit, setbit, bits, load}

-- `memset(p, 0xff, n)`
unfoldable pub memset : List ℕ → ℕ → Outcome (List ℕ)
memset p n = require (leb n (length p)) (done (replicate n 0xff ++ drop n p))

-- `for (; j < limit; j += step) setbit(p, j, 0);`
unfoldable pub mark : ℕ → List ℕ → ℕ → ℕ → ℕ → Outcome (List ℕ)
mark zero p j step limit = timeout
mark (suc fuel) p j step limit =
    let round = (do q ← setbit p j false; mark fuel q (u64 (j + step)) step limit) in
    if ltb j limit then round else done p

-- `for (; i*i < limit; i++) if (bit(p, i)) for (j = i * i; ...) ...`
unfoldable pub sieve_loop : ℕ → List ℕ → ℕ → ℕ → Outcome (List ℕ)
sieve_loop zero p i limit = timeout
sieve_loop (suc fuel) p i limit =
    let round = (do
      b ← bit p i
      q ← (if b then mark (suc limit) p (u64 (i * i)) i limit else done p)
      sieve_loop fuel q (i + 1) limit) in
    if ltb (u64 (i * i)) limit then round else done p

-- Neither loop makes more than `limit` rounds.
unfoldable pub sieve : List ℕ → ℕ → Outcome (List ℕ)
sieve p limit = do q ← memset p (bits limit); sieve_loop (suc limit) q 2 limit
