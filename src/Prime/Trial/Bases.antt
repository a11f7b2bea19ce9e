-- ===== src/Prime/Trial/Bases.antt =====
-- What `isprime` answers from the limit of the table on.
use xtest.Base.{
  ℕ, ◌+◌, ◌-◌, ◌%◌, ◌^◌, ◌≤◌, ◌<◌, ◌≡◌, ◌≢◌, refl, ◌∙◌, ◌⊎◌, inl, inr, Bool, true, false, done,
  ◌==◌, Bool-cases, arith, ◌↔◌, List, [], ◌∷◌,
}
use xtest.Prime.Trial.{Globals, try_bases, bases, isprime, isprime_large, small_factor}
use xtest.Prime.Trial.Accepted.{IsAccepted, try_bases_lem}

-- None of the divisors divides `n`.
abbrev pub Undivided : ℕ → List ℕ → Type 0
Undivided n [] = Unit
Undivided n (p ∷ ps) = (n % p ≢ 0) × Undivided n ps

-- What it takes from the limit of the table on.
abbrev pub IsPassed : ℕ → Type 0
IsPassed n =
    Undivided n (3 ∷ 5 ∷ 7 ∷ 11 ∷ 13 ∷ 17 ∷ [])
    × IsAccepted n (2 ∷ 3 ∷ 5 ∷ 7 ∷ 11 ∷ 13 ∷ 17 ∷ 19 ∷ 23 ∷ [])

small_factor-Undivided : (n : ℕ) → small_factor n ≡ false → Undivided n (5 ∷ 7 ∷ 11 ∷ 13 ∷ 17 ∷ [])
small_factor-Undivided n h =
    (ground arith, (ground arith, (ground arith, (ground arith, (ground arith, tt)))))

Undivided-small_factor : (n : ℕ) → Undivided n (5 ∷ 7 ∷ 11 ∷ 13 ∷ 17 ∷ []) → small_factor n ≡ false
Undivided-small_factor n (a, (b, (c, (d, (e, f))))) = ground (arith, a, b, c, d, e)

abbrev pub counted : Globals → Globals
counted g = record g { allall = g.allall + 1 }

-- A call that got as far as the bases.
abbrev pub missed : Globals → Globals
missed g = record g { all = g.all + 1; misses = g.misses + 1 }

isprime-large :
    (g : Globals) (n : ℕ)
    → g.allall < 2 ^ 31 - 1
    → g.inv_idx_limit ≤ n
    → n % 2 ≡ 1
    → 2 < n
    → isprime g n ≡ isprime_large (counted g) n
unfolding isprime
isprime-large g n room above odd big = ground arith

abbrev LargeAnswer : Globals → ℕ → Type 0
LargeAnswer g n =
    (answer : Bool) × (g' : Globals) × (isprime_large g n ≡ done (answer, g'))
    × ((g' ≡ g) ⊎ (g' ≡ missed g))
    × ((answer ≡ true) ↔ IsPassed n)

large_small :
    (g : Globals) (n : ℕ)
    → n % 2 ≡ 1
    → 2 < n
    → n % 3 ≢ 0
    → small_factor n ≡ true
    → isprime_large g n ≡ done (false, g)
unfolding isprime_large
large_small g n odd big free five = rw five (ground arith)

large_bases :
    (g : Globals) (n : ℕ)
    → g.all < 2 ^ 31 - 1
    → g.misses < 2 ^ 31 - 1
    → n % 2 ≡ 1
    → 2 < n
    → n % 3 ≢ 0
    → small_factor n ≡ false
    → {answer : Bool} → try_bases n bases ≡ done answer
    → isprime_large g n ≡ done (answer, missed g)
unfolding isprime_large
large_bases g n r2 r3 odd big free clear runs = rw (clear, runs) (ground arith)

large_answers :
    (g : Globals) (n : ℕ)
    → g.all < 2 ^ 31 - 1
    → g.misses < 2 ^ 31 - 1
    → n % 2 ≡ 1
    → 2 < n
    → n ≤ 2 ^ 63
    → LargeAnswer g n
large_answers g n r2 r3 odd big small = elim (Bool-cases (n % 3 == 0)) [
  | inl three ↦ (
    false,
    g,
    unfold isprime_large in ground arith,
    inl refl,
    (λ h. absurd (cc), λ ((k, more), accepted). absurd (ground arith)),
  )
  | inr free ↦ elim (Bool-cases (small_factor n)) [
    | inl five ↦ (
      false,
      g,
      large_small g n odd big (ground arith) five,
      inl refl,
      (
        λ h. absurd (cc),
        λ ((k, more), accepted). absurd (let c = Undivided-small_factor n more in cc),
      ),
    )
    | inr none' ↦
        let (answer, runs, meaning) = try_bases_lem n bases odd (omega arith) small in
        (
          answer,
          missed g,
          large_bases g n r2 r3 odd big (ground arith) none' runs,
          inr refl,
          (
            λ h. ((ground arith, small_factor-Undivided n none'), meaning.0 h),
            λ (free', accepted). meaning.1 accepted,
          ),
        )
  ]
]

-- From the limit of the table on, an odd number from 3 to 2 ^ 63 always gets an answer while the three
-- counters are below their maximum. It is 1 exactly if no prime from 3 to 17 divides the number and
-- the number is a strong probable prime to the primes from 2 to 23, or equals one of them and is a
-- strong probable prime to those before it. `allall` grows by 1, and `all` and `misses` grow both by 1
-- or not at all.
pub isprime-above :
    (g : Globals) (n : ℕ)
    → g.allall < 2 ^ 31 - 1
    → g.all < 2 ^ 31 - 1
    → g.misses < 2 ^ 31 - 1
    → g.inv_idx_limit ≤ n
    → n % 2 ≡ 1
    → 2 < n
    → n ≤ 2 ^ 63
    → (answer : Bool) × (g' : Globals) × (isprime g n ≡ done (answer, g'))
      × ((g' ≡ counted g) ⊎ (g' ≡ missed (counted g)))
      × ((answer ≡ true) ↔ (
          Undivided n (3 ∷ 5 ∷ 7 ∷ 11 ∷ 13 ∷ 17 ∷ [])
          × IsAccepted n (2 ∷ 3 ∷ 5 ∷ 7 ∷ 11 ∷ 13 ∷ 17 ∷ 19 ∷ 23 ∷ [])))
isprime-above g n r1 r2 r3 above odd big small =
    let (answer, g', runs, counts, meaning) = large_answers (counted g) n r2 r3 odd big small in
    (answer, g', isprime-large g n r1 above odd big ∙ runs, counts, meaning)

-- With a table that ends at or below it, every odd number from 3 to 18 is called composite, the
-- primes 3, 5, 7, 11, 13 and 17 among them.
pub isprime-no_table :
    (g : Globals) (n : ℕ)
    → g.allall < 2 ^ 31 - 1
    → g.inv_idx_limit ≤ n
    → n % 2 ≡ 1
    → 2 < n
    → n < 19
    → isprime g n ≡ done (false, counted g)
isprime-no_table g n room above odd big low = isprime-large g n room above odd big ∙ small_answers
  where
    small_answers : isprime_large (counted g) n ≡ done (false, counted g)
    small_answers = unfold isprime_large in ground arith
