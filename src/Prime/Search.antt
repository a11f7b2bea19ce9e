-- ===== src/Prime/Search.antt =====
-- What it takes for a search that calls `isprime` to decide a property.
use xtest.Base.{
  ℕ, suc, List, [], ◌∷◌, length, ◌+◌, ◌-◌, ◌^◌, ◌≤◌, ◌<◌, ◌≡◌, arith, ap, ◌∙◌, ◌⊎◌, Bool, true,
  false, Outcome, done,
}
use xtest.Prime.Sieve.Correct.{IsPrimeTable}
use xtest.Prime.Sieve.Spec.{IsPrime}
use xtest.Prime.Trial.{Globals, isprime}
use xtest.Prime.Trial.Correct.{counted, isprime-table}

abbrev pub later : Globals → ℕ → Globals
later g calls = record g { allall = g.allall + calls }

-- A run that decides `P`, with at most `most` calls of `isprime`.
pub record Decides (P : Type 0) (most : ℕ) (g : Globals) (run : Outcome (Bool × Globals))
    : Type 0 where
  pub answer : Bool
  pub calls : ℕ
  pub few : calls ≤ most
  pub returns : run ≡ done (answer, later g calls)
  pub holds : answer ≡ true → P
  pub fails : answer ≡ false → ¬ P

pub later-add : (g : Globals) (n : ℕ) → later (counted g) n ≡ later g (suc n)
later-add g n =
    let e : g.allall + 1 + n ≡ g.allall + suc n = omega arith in ap (λ a. record g { allall = a }) e

-- The table, and enough room in the count of calls.
pub record Ready (most : ℕ) (g : Globals) : Type 0 where
  pub table : IsPrimeTable g.inv_idx_limit g.inv_idx
  pub covers : 10 ^ 6 ≤ g.inv_idx_limit
  pub room : g.allall + most < 2 ^ 31 - 1

pub Ready-after : (most : ℕ) (g : Globals) → Ready (suc most) g → Ready most (counted g)
Ready-after most g r = record { table = r.table; covers = r.covers; room = omega (arith, r.room) }

pub Ready-less : (most fewer : ℕ) (g : Globals) → fewer ≤ most → Ready most g → Ready fewer g
Ready-less most fewer g le r = record {
  table = r.table;
  covers = r.covers;
  room = omega (arith, r.room);
}

pub Ready-later :
    (a b calls : ℕ) (g : Globals) → calls ≤ a → Ready (a + b) g → Ready b (later g calls)
Ready-later a b calls g le r = record {
  table = r.table;
  covers = r.covers;
  room = omega (arith, r.room);
}

-- The list of those of the `n` numbers from `i` on that have the property.
pub data Selected (P : ℕ → Type 0) : ℕ → ℕ → List ℕ → Type 0 where
  nothing : (i : ℕ) → Selected P i 0 []
  hit : (i n : ℕ) (xs : List ℕ) → P i → Selected P (i + 1) n xs → Selected P i (suc n) (i ∷ xs)
  miss : (i n : ℕ) (xs : List ℕ) → ¬ (P i) → Selected P (i + 1) n xs → Selected P i (suc n) xs

pub length-Selected : {P : ℕ → Type 0} (i n : ℕ) (xs : List ℕ) → Selected P i n xs → length xs ≤ n
length-Selected _ _ _ (nothing i) = omega arith
length-Selected _ _ _ (hit i n xs p s) = omega (arith, length-Selected (i + 1) n xs s)
length-Selected _ _ _ (miss i n xs p s) = omega (arith, length-Selected (i + 1) n xs s)

-- `isprime` with such a table, for what a search asks.
pub ask :
    (most : ℕ) (g : Globals) (z : ℕ)
    → Ready (suc most) g
    → z < 10 ^ 6
    → ((isprime g z ≡ done (true, counted g)) × IsPrime z)
      ⊎ ((isprime g z ≡ done (false, counted g)) × ¬ (IsPrime z))
ask most g z r lt =
    isprime-table g z (omega (arith, r.room)) r.table (omega (arith, r.covers))
      (omega (arith, r.covers))

module _ {P : Type 0} (most : ℕ) (g : Globals) {run : Outcome (Bool × Globals)} where
  pub Decides-true : run ≡ done (true, counted g) → P → Decides P (suc most) g run
  Decides-true e p = record {
    answer = true;
    calls = 1;
    few = omega arith;
    returns = e;
    holds = λ _. p;
    fails = λ x. absurd cc;
  }

  pub Decides-false : run ≡ done (false, counted g) → ¬ P → Decides P (suc most) g run
  Decides-false e p = record {
    answer = false;
    calls = 1;
    few = omega arith;
    returns = e;
    holds = λ x. absurd cc;
    fails = λ _. p;
  }

  -- One call more, before a search that decides something with the same answer.
  pub Decides-more :
      {A : Type 0} {rest : Outcome (Bool × Globals)}
      → Decides A most (counted g) rest
      → run ≡ rest
      → (A → P)
      → (P → A)
      → Decides P (suc most) g run
  Decides-more d e to from = record {
    answer = d.answer;
    calls = suc d.calls;
    few = omega (arith, d.few);
    returns = e ∙ d.returns ∙ ap (λ g'. done (d.answer, g')) (later-add g d.calls);
    holds = λ x. to (d.holds x);
    fails = λ x p. d.fails x (from p);
  }
