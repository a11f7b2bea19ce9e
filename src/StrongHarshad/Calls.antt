-- ===== src/StrongHarshad/Calls.antt =====
-- The calls of `isprime` are counted in an `int`, and the rounds are too many for it.
use xtest.Base.{
  ℕ, zero, suc, ◌+◌, ◌-◌, ◌*◌, ◌/◌, ◌%◌, ◌^◌, ◌≤◌, ◌<◌, ◌≡◌, Bool, true, false, List, length, done,
  undefined, ◌>>=◌, u64, arith, refl, ap, ◌∙◌, inl, inr,
}
use xtest.Prime.Bitmap.{bits}
use xtest.Prime.Sieve.{sieve}
use xtest.Prime.Sieve.Correct.{IsPrimeTable, sieve_lem}
use xtest.Prime.Trial.{Globals}
use xtest.StrongHarshad.{strong_round, add_strong, strong_loop, strong_main}
use xtest.StrongHarshad.Total.{IsGood, strong_round-Stepped}

-- Some rounds end, and the count then has no room for the calls of the next one.
pub record Overflows (rounds i sum : ℕ) (g : Globals) : Type 0 where
  pub passed : ℕ
  pub fewer : passed < rounds
  pub sum_then : ℕ
  pub globals : Globals
  pub reached : strong_loop passed i sum g ≡ done (sum_then, globals)
  pub full : 2 ^ 31 - 2 ≤ globals.allall
  pub over : strong_round (i + 2 * passed) globals ≡ undefined
  pub ends : strong_loop rounds i sum g ≡ undefined

at_once :
    (n i sum : ℕ) (g : Globals)
    → strong_round i g ≡ undefined
    → 2 ^ 31 - 2 ≤ g.allall
    → Overflows (suc n) i sum g
unfolding strong_loop
at_once n i sum g e full = record {
  passed = 0;
  fewer = omega arith;
  sum_then = sum;
  globals = g;
  reached = refl;
  full = full;
  over = ap (λ (k : ℕ). strong_round k g) (omega arith) ∙ e;
  ends = ap (λ m. m >>= add_strong (strong_loop n (i + 2)) i sum) e;
}

abbrev sum_after : Bool → ℕ → ℕ → ℕ
sum_after false i sum = sum
sum_after true i sum = u64 (sum + i)

round_first :
    (n i sum : ℕ) (g g' : Globals) (b : Bool)
    → strong_round i g ≡ done (b, g')
    → strong_loop (suc n) i sum g ≡ strong_loop n (i + 2) (sum_after b i sum) g'
unfolding strong_loop
round_first n i sum g g' false e = ap (λ m. m >>= add_strong (strong_loop n (i + 2)) i sum) e
round_first n i sum g g' true e = ap (λ m. m >>= add_strong (strong_loop n (i + 2)) i sum) e

later :
    (n i sum : ℕ) (g g' : Globals) (b : Bool)
    → strong_round i g ≡ done (b, g')
    → Overflows n (i + 2) (sum_after b i sum) g'
    → Overflows (suc n) i sum g
later n i sum g g' b e o = record {
  passed = suc o.passed;
  fewer = omega (arith, o.fewer);
  sum_then = o.sum_then;
  globals = o.globals;
  reached = round_first o.passed i sum g g' b e ∙ o.reached;
  full = o.full;
  over = ap (λ (k : ℕ). strong_round k o.globals) (omega arith) ∙ o.over;
  ends = round_first n i sum g g' b e ∙ o.ends;
}

loop-Overflows :
    (n i sum : ℕ) (g : Globals)
    → IsGood g
    → 10 ≤ i
    → i + 2 * n ≤ 2 ^ 63
    → 2 ^ 31 ≤ g.allall + n
    → Overflows n i sum g
loop-Overflows zero i sum g v big small many = absurd (omega (arith, v.below))
loop-Overflows (suc n) i sum g v big small many =
    elim (strong_round-Stepped i g v big (omega arith)) [
      | inl (e, full) ↦ at_once n i sum g e full
      | inr (b, g', e, more, w) ↦ later n i sum g g' b e (
          loop-Overflows n (i + 2) (sum_after b i sum) g' w (omega arith) (omega arith)
            (omega (arith, more)))
    ]

-- `main` once the table is filled.
abbrev pub start : List ℕ → ℕ → Globals
start q top = record { inv_idx = q; inv_idx_limit = top; allall = 0; all = 0; misses = 0 }

start-IsGood : (q : List ℕ) (top : ℕ) → IsPrimeTable top q → 2 < top → IsGood (start q top)
start-IsGood q top table two = record {
  table = table;
  limit = two;
  all = omega arith;
  misses = omega arith;
  below = omega arith;
}

-- For a table whose limit is a multiple of 16 from 16 to 2 ^ 62 and whose array has the size that
-- `main` allocates, and for a limit of the loop from 2 ^ 32 + 10 to below 2 ^ 63 (`main` has 10 ^ 10): `sieve`
-- fills the table, and some rounds, fewer than all, come to their end; then `allall`, an `int` that each
-- call of `isprime` increments, is 2 ^ 31 - 2 or more, and the next round, and with it the run, is
-- undefined.
pub strong_main_lem :
    (inv_idx : List ℕ) (top limit : ℕ)
    → 2 < top
    → top ≤ 2 ^ 62
    → top % 16 ≡ 0
    → length inv_idx ≡ bits top
    → 2 ^ 32 + 10 ≤ limit
    → limit < 2 ^ 63
    → (q : List ℕ) × (sieve inv_idx top ≡ done q)
      × Overflows ((limit - 10) / 2) 11 0 (start q top)
      × (strong_main inv_idx top limit ≡ undefined)
unfolding strong_main
strong_main_lem inv_idx top limit two small whole room large fits =
    let (q, filled, table) = sieve_lem inv_idx top small whole room in
    let o =
      loop-Overflows ((limit - 10) / 2) 11 0 (start q top) (start-IsGood q top table two)
        (omega arith) (omega arith) (omega arith) in
    (
      q,
      filled,
      o,
      ap (λ m. m >>= (λ q. strong_loop ((limit - 10) / 2) 11 0 (start q top))) filled ∙ o.ends,
    )
