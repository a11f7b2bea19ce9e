-- ===== src/StrongHarshad/Total.antt =====
-- When a call of `isprime`, and a round, has a result.
use xtest.Base.{
  ℕ, ◌+◌, ◌-◌, ◌/◌, ◌%◌, ◌^◌, ◌≤◌, ◌<◌, ◌≡◌, Bool, true, false, ◌==◌, ltb, Outcome, done, undefined,
  ◌>>=◌, arith, refl, ap, ◌∙◌, sym, subst, Bool-cases, ◌⊎◌, inl, inr, dec_lt,
}
use xtest.Prime.Sieve.Correct.{IsPrimeTable}
use xtest.Prime.Trial.{Globals, isprime}
use xtest.Prime.Trial.Correct.{isprime-table}
use xtest.Prime.Trial.Bases.{counted, missed, isprime-above}
use xtest.Truncatable.{sum_digs}
use xtest.Truncatable.Digits.{digit_sum, sum_digs_lem, digit_sum-positive}
use xtest.Truncatable.Correct.{truncate_loop_lem}
use xtest.StrongHarshad.{is_right_truncatable, if_truncatable, if_prime, strong_round}

-- The table is right, and `allall` is the largest counter and fits in an `int`.
pub record IsGood (g : Globals) : Type 0 where
  pub table : IsPrimeTable g.inv_idx_limit g.inv_idx
  pub limit : 2 < g.inv_idx_limit
  pub all : g.all ≤ g.allall
  pub misses : g.misses ≤ g.allall
  pub below : g.allall < 2 ^ 31

counted-IsGood : (g : Globals) → g.allall < 2 ^ 31 - 1 → IsGood g → IsGood (counted g)
counted-IsGood g room v = record {
  table = v.table;
  limit = v.limit;
  all = omega (arith, v.all);
  misses = omega (arith, v.misses);
  below = omega arith;
}

missed-IsGood : (g : Globals) → g.allall < 2 ^ 31 - 1 → IsGood g → IsGood (missed (counted g))
missed-IsGood g room v = record {
  table = v.table;
  limit = v.limit;
  all = omega (arith, v.all);
  misses = omega (arith, v.misses);
  below = omega arith;
}

-- An answer, after which one more call is counted.
abbrev pub Answered : Globals → Outcome (Bool × Globals) → Type 0
Answered g m =
    (b : Bool) × (g' : Globals) × (m ≡ done (b, g')) × (g'.allall ≡ g.allall + 1) × IsGood g'

even-Answered :
    (g : Globals) (n : ℕ)
    → IsGood g
    → g.allall < 2 ^ 31 - 1
    → g.inv_idx_limit ≤ n
    → n % 2 ≡ 0
    → Answered g (isprime g n)
unfolding isprime
even-Answered g n v room above even =
    let big : 2 < n = omega (arith, v.limit) in
    (false, counted g, ground arith, refl, counted-IsGood g room v)

above-Answered :
    (g : Globals) (n : ℕ)
    → IsGood g
    → g.allall < 2 ^ 31 - 1
    → g.inv_idx_limit ≤ n
    → n % 2 ≡ 1
    → n ≤ 2 ^ 63
    → Answered g (isprime g n)
above-Answered g n v room above odd small =
    let (b, g', e, counts, accepts) =
      isprime-above g n room (omega (arith, v.all)) (omega (arith, v.misses)) above odd
        (omega (arith, v.limit)) small in
    elim counts [
      | inl c ↦ (b, counted g, e ∙ ap (λ x. done (b, x)) c, refl, counted-IsGood g room v)
      | inr c ↦ (b, missed (counted g), e ∙ ap (λ x. done (b, x)) c, refl, missed-IsGood g room v)
    ]

pub isprime-Answered :
    (g : Globals) (n : ℕ) → IsGood g → g.allall < 2 ^ 31 - 1 → n ≤ 2 ^ 63 → Answered g (isprime g n)
isprime-Answered g n v room small = elim (dec_lt n g.inv_idx_limit) [
  | yes lt ↦ elim (isprime-table g n room v.table v.limit lt) [
    | inl (e, p) ↦ (true, counted g, e, refl, counted-IsGood g room v)
    | inr (e, p) ↦ (false, counted g, e, refl, counted-IsGood g room v)
  ]
  | no above ↦ elim (Bool-cases (n % 2 == 0)) [
    | inl even ↦ even-Answered g n v room (omega arith) (ground arith)
    | inr odd ↦ above-Answered g n v room (omega arith) (ground arith) small
  ]
]

-- The count is at its maximum.
pub isprime-full : (g : Globals) (n : ℕ) → ¬ (g.allall < 2 ^ 31 - 1) → isprime g n ≡ undefined
unfolding isprime
isprime-full g n full = let e : ltb g.allall (2 ^ 31 - 1) ≡ false = ground arith in rw e refl

-- A step that the count has no room for, or that counts one call or more.
abbrev pub Stepped : Globals → Outcome (Bool × Globals) → Type 0
Stepped g m =
    ((m ≡ undefined) × (2 ^ 31 - 2 ≤ g.allall))
    ⊎ ((b : Bool) × (g' : Globals) × (m ≡ done (b, g')) × (g.allall + 1 ≤ g'.allall) × IsGood g')

truncatable-Stepped :
    (g g' : Globals) (n : ℕ) (b : Bool)
    → IsGood g'
    → g.allall + 1 ≤ g'.allall
    → n < 2 ^ 64
    → Stepped g (if_truncatable n (b, g'))
unfolding is_right_truncatable
truncatable-Stepped g g' n false v le small = inr (false, g', refl, le, v)
truncatable-Stepped g g' n true v le small =
    let (b, e, p) = truncate_loop_lem 20 n (omega arith) small in
    inr (b, g', ap (λ m. m >>= (λ b. done (b, g'))) e, le, v)

quotient-Stepped :
    (g g' : Globals) (n : ℕ)
    → IsGood g'
    → g'.allall ≡ g.allall + 1
    → 0 < n
    → n ≤ 2 ^ 63
    → Stepped g (if_prime n (true, g'))
quotient-Stepped g g' n v one pos small =
    let s = digit_sum n in
    let sum : sum_digs n ≡ done s = sum_digs_lem n (omega arith) in
    let nonzero : (s == 0) ≡ false = ground (arith, digit_sum-positive n (omega arith) pos) in
    elim (dec_lt g'.allall (2 ^ 31 - 1)) [
      | no full ↦ rw (sum, nonzero, isprime-full g' (n / s) full) (inl (refl, omega (arith, one)))
      | yes room ↦
          let (b, g2, e, more, w) = isprime-Answered g' (n / s) v room (omega arith) in
          rw (sum, nonzero, e)
            (truncatable-Stepped g g2 n b w (omega (arith, one, more)) (omega arith))
    ]

pub strong_round-Stepped :
    (i : ℕ) (g : Globals) → IsGood g → 10 ≤ i → i ≤ 2 ^ 63 → Stepped g (strong_round i g)
unfolding strong_round
strong_round-Stepped i g v big small = elim (dec_lt g.allall (2 ^ 31 - 1)) [
  | no full ↦ inl (ap (λ m. m >>= if_prime (i / 10)) (isprime-full g i full), omega arith)
  | yes room ↦
      let (b, g', e, one, w) = isprime-Answered g i v room small in
      subst (Stepped g) (ap (λ m. m >>= if_prime (i / 10)) (sym e)) (elim (Bool-cases b) [
        | inl prime ↦
            subst (λ x. Stepped g (if_prime (i / 10) (x, g'))) (sym prime)
              (quotient-Stepped g g' (i / 10) w one (omega arith) (omega arith))
        | inr other ↦
            subst (λ x. Stepped g (if_prime (i / 10) (x, g'))) (sym other)
              (inr (false, g', refl, omega (arith, one), w))
      ])
]
