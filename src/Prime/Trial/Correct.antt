-- ===== src/Prime/Trial/Correct.antt =====
-- What `isprime` answers, below the limit of the table and above it.
use xtest.Base.{
  ℕ, ◌+◌, ◌-◌, ◌*◌, ◌/◌, ◌%◌, ◌^◌, ◌≤◌, ◌<◌, ◌≡◌, sym, ◌⊎◌, inl, inr, true, false, done, ◌==◌,
  Bool-cases, arith, dec_lt, ℕ_discrete,
}
use xtest.Prime.Bitmap.Laws.{flag}
use xtest.Prime.Sieve.Spec.{Composite, IsPrime}
use xtest.Prime.Sieve.Correct.{IsPrimeTable}
use xtest.Prime.Trial.{Globals, isprime}

abbrev pub counted : Globals → Globals
counted g = record g { allall = g.allall + 1 }

product_ne_two : (a b : ℕ) → 1 < a → 1 < b → a * b ≡ 2 → ⊥
product_ne_two a b p q e = let four : 2 * 2 ≤ a * b = grind arith in omega arith

two-IsPrime : IsPrime 2
two-IsPrime = (omega arith, λ (a, b, p, q, e). product_ne_two a b p q (sym e))

even-Composite : (n : ℕ) → 2 < n → n % 2 ≡ 0 → Composite n
even-Composite n big even = (2, n / 2, omega arith, omega arith, omega arith)

-- With a correct table every number below the limit is classified, and only the count of calls
-- changes.
pub isprime-table :
    (g : Globals) (n : ℕ)
    → g.allall < 2 ^ 31 - 1
    → IsPrimeTable g.inv_idx_limit g.inv_idx
    → 2 < g.inv_idx_limit
    → n < g.inv_idx_limit
    → ((isprime g n ≡ done (true, counted g)) × IsPrime n)
      ⊎ ((isprime g n ≡ done (false, counted g)) × ¬ (IsPrime n))
unfolding isprime
isprime-table g n room table two lt = elim (ℕ_discrete n 2) [
  | yes two ↦ inl (ground arith, rw two two-IsPrime)
  | no other ↦ elim (dec_lt 2 n) [
    | no low ↦ inr (ground arith, λ p. absurd (omega (arith, p.0)))
    | yes high ↦ elim (Bool-cases (n % 2 == 0)) [
      | inl even ↦ inr (ground arith, λ p. p.1 (even-Composite n high (ground arith)))
      | inr odd ↦
          let reads = table.reads n (ground arith) lt in
          elim (Bool-cases (flag g.inv_idx n)) [
            | inl set ↦ inl (
              ground arith,
              (omega arith, λ c. let k = table.clears n (ground arith) lt c in ground arith),
            )
            | inr clear ↦
                inr (ground arith, λ p. let k = table.sets n (ground arith) lt p in ground arith)
          ]
    ]
  ]
]
