-- ===== src/Prime/Trial.antt =====
-- `isprime` of test_prime.c: the table below its limit, small divisors, then nine bases.
pub mod Correct
pub mod Accepted
pub mod Bases
use xtest.Base.{
  ℕ, zero, suc, ◌+◌, ◌-◌, ◌*◌, ◌/◌, ◌%◌, ◌^◌, ◌≡◌, Bool, true, false, ◌||◌, List, [], ◌∷◌, Outcome,
  done, undefined, timeout, ◌>>=◌, require, ltb, leb, ◌==◌, if◌then◌else◌, u64,
}
use xtest.Prime.Bitmap.{bit}
use xtest.Prime.MillerRabin.{miller_rabin_test}

-- The file's global variables.
pub record Globals : Type 0 where
  pub inv_idx : List ℕ
  pub inv_idx_limit : ℕ
  pub allall : ℕ
  pub all : ℕ
  pub misses : ℕ

-- `c++` on an `int`, whose overflow is undefined.
abbrev pub increment : ℕ → Outcome ℕ
increment c = require (ltb c (2 ^ 31 - 1)) (done (c + 1))

abbrev pub count_call : Globals → Outcome Globals
count_call g = do c ← increment g.allall; done (record g { allall = c })

abbrev pub count_miss : Globals → Outcome Globals
count_miss g = do
  a ← increment g.all
  m ← increment g.misses
  done (record g { all = a; misses = m })

-- The loop over `bases`.
unfoldable pub try_bases : ℕ → List ℕ → Outcome Bool
try_bases n [] = done true
try_bases n (a ∷ bases) =
    let rest = (do
      passed ← miller_rabin_test n a
      let more = try_bases n bases
      if passed then more else done false) in
    if n == a then done true else rest

abbrev pub bases : List ℕ
bases = 2 ∷ 3 ∷ 5 ∷ 7 ∷ 11 ∷ 13 ∷ 17 ∷ 19 ∷ 23 ∷ []

abbrev pub small_factor : ℕ → Bool
small_factor n = n % 5 == 0 || n % 7 == 0 || n % 11 == 0 || n % 13 == 0 || n % 17 == 0

-- From the test against `invIdxLimit` on.
unfoldable pub isprime_large : Globals → ℕ → Outcome (Bool × Globals)
isprime_large g n =
    if n % 2 == 0 || n % 3 == 0
    then done (false, g)
    else if leb n 3
    then done (ltb 1 n, g)
    else if small_factor n
    then done (false, g)
    else (do g' ← count_miss g; answer ← try_bases n bases; done (answer, g'))

-- The tests that come after `allall++`.
unfoldable pub isprime_counted : Globals → ℕ → Outcome (Bool × Globals)
isprime_counted g n =
    if n == 0
    then done (false, g)
    else if n == 1
    then done (false, g)
    else if n == 2
    then done (true, g)
    else if n % 2 == 0
    then done (false, g)
    else if ltb n g.inv_idx_limit
    then (do b ← bit g.inv_idx n; done (b, g))
    else isprime_large g n

unfoldable pub isprime : Globals → ℕ → Outcome (Bool × Globals)
unfolding isprime_counted
isprime g n = do g' ← count_call g; isprime_counted g' n
