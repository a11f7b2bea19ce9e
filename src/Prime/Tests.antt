-- ===== src/Prime/Tests.antt =====
-- Runs of the shared number theory, and its theorems at concrete inputs.
use xtest.Base.{ℕ, ◌%◌, ◌^◌, ◌≡◌, refl, arith, ◌-◌, List, [], ◌∷◌, replicate, done, undefined}
use xtest.Prime.Modexp.{mul_mod, modexp_loop, modexp, modexp_lem, modexp_overflow}
use xtest.Prime.Bitmap.{bit, setbit, bits, load}
use xtest.Prime.Sieve.{memset, mark, sieve_loop, sieve}
use xtest.Prime.Sieve.Correct.{IsPrimeTable, sieve_lem}
use xtest.Base.{◌⊎◌, Bool, true, false, ◌*◌, ◌↔◌, sym, subst, ◌-◌}
use xtest.Prime.MillerRabin.{split_loop, square_loop, miller_rabin_test}
use xtest.Prime.MillerRabin.Correct.{IsStrongProbablePrime, miller_rabin_test_lem}
use xtest.Prime.Wheel.{wheel_loop, strike, sieve2}
use xtest.Prime.Wheel.Correct.{sieve2_lem}
use xtest.Prime.Trial.{Globals, try_bases, isprime, isprime_large}
use xtest.Prime.Trial.Accepted.{IsAccepted}
use xtest.Prime.Trial.Bases.{Undivided, counted, missed, isprime-above, isprime-no_table}

modexp_runs : modexp 7 560 561 ≡ done 1
unfolding modexp modexp_loop mul_mod
modexp_runs = refl

modexp_lem_example : modexp 3 200 1009 ≡ done (3 ^ 200 % 1009)
modexp_lem_example = modexp_lem 3 200 1009 (omega arith) (omega arith) (omega arith)

large_modulus_overflows : modexp (2 ^ 64 - 60) 1 (2 ^ 64 - 59) ≡ undefined
large_modulus_overflows =
    modexp_overflow (2 ^ 64 - 60) 1 (2 ^ 64 - 59) (omega arith) (omega arith) (omega arith)
      (omega arith)

-- 1 3 5 7 11 13 and 17 19 23 29 31 are left.
sieve_runs : sieve (replicate 2 0) 32 ≡ done (0x6f ∷ 0xcb ∷ [])
unfolding sieve memset mark sieve_loop setbit bit load bits
sieve_runs = refl

sieve_lem_example : (q : List ℕ) × (sieve (0 ∷ 0 ∷ []) 32 ≡ done q) × IsPrimeTable 32 q
unfolding bits
sieve_lem_example = sieve_lem (0 ∷ 0 ∷ []) 32 (omega arith) (omega arith) (omega arith)

abbrev no_table : Globals
no_table = record { inv_idx = []; inv_idx_limit = 0; allall = 0; all = 0; misses = 0 }

abbrev table_32 : Globals
table_32 = record {
  inv_idx = 0x6f ∷ 0xcb ∷ [];
  inv_idx_limit = 32;
  allall = 5;
  all = 0;
  misses = 0;
}

table_32-IsPrimeTable : IsPrimeTable 32 (0x6f ∷ 0xcb ∷ [])
unfolding sieve memset mark sieve_loop setbit bit load bits
table_32-IsPrimeTable =
    let (q, runs, table) = sieve_lem (0 ∷ 0 ∷ []) 32 (omega arith) (omega arith) (omega arith) in
    subst (IsPrimeTable 32) (done-injective (sym runs)) table
  where
    done-injective : {a b : List ℕ} → done a ≡ done b → a ≡ b
    done-injective e = cc

miller_rabin_runs : miller_rabin_test 2047 2 ≡ done true
unfolding miller_rabin_test split_loop square_loop modexp modexp_loop mul_mod
miller_rabin_runs = refl

miller_rabin_test_lem_example :
    (d s : ℕ) × (2047 - 1 ≡ 2 ^ s * d)
    × (d % 2 ≡ 1)
    × (answer : Bool) × (miller_rabin_test 2047 2 ≡ done answer)
    × ((answer ≡ true) ↔ IsStrongProbablePrime 2047 2 d s)
miller_rabin_test_lem_example =
    miller_rabin_test_lem 2047 2 (omega arith) (omega arith) (omega arith)

isprime_runs :
    isprime no_table 1009 ≡ done (true, record no_table { allall = 1; all = 1; misses = 1 })
unfolding isprime isprime_large try_bases miller_rabin_test split_loop square_loop modexp
    modexp_loop mul_mod
isprime_runs = refl

isprime-above_example :
    (answer : Bool) × (g' : Globals) × (isprime table_32 1009 ≡ done (answer, g'))
    × ((g' ≡ counted table_32) ⊎ (g' ≡ missed (counted table_32)))
    × ((answer ≡ true) ↔ (
        Undivided 1009 (3 ∷ 5 ∷ 7 ∷ 11 ∷ 13 ∷ 17 ∷ [])
        × IsAccepted 1009 (2 ∷ 3 ∷ 5 ∷ 7 ∷ 11 ∷ 13 ∷ 17 ∷ 19 ∷ 23 ∷ [])))
isprime-above_example =
    isprime-above table_32 1009 (omega arith) (omega arith) (omega arith) (omega arith)
      (omega arith) (omega arith) (omega arith)

seventeen_rejected : isprime no_table 17 ≡ done (false, record no_table { allall = 1 })
seventeen_rejected =
    isprime-no_table no_table 17 (omega arith) (omega arith) (omega arith) (omega arith)
      (omega arith)

-- 1 3 5 7 11 13 and 17 19 23 29 31 and 37 41 43 47 are left.
sieve2_runs : sieve2 (replicate 3 0) 48 ≡ done (0x6f ∷ 0xcb ∷ 0xb4 ∷ [])
unfolding sieve2 strike memset mark wheel_loop setbit bit load bits
sieve2_runs = refl

sieve2_lem_example : (q : List ℕ) × (sieve2 (0 ∷ 0 ∷ 0 ∷ 0 ∷ []) 64 ≡ done q) × IsPrimeTable 64 q
unfolding bits
sieve2_lem_example =
    sieve2_lem (0 ∷ 0 ∷ 0 ∷ 0 ∷ []) 64 (omega arith) (omega arith) (omega arith) (omega arith)
