-- ===== src/Rotations/Correct.antt =====
-- The search through a number's rotations ends, and finds out whether it is circular.
pub mod Counting
use xtest.Base.{
  ℕ, zero, suc, ◌+◌, ◌-◌, ◌%◌, ◌/◌, ◌*◌, ◌^◌, ◌≤◌, ◌<◌, ◌≡◌, arith, refl, ap, ◌∙◌, sym, dec_lt,
  subst, ◌⊎◌, inl, inr, ◌≢◌, Bool, true, false, Outcome, done, ◌==◌, ℕ_discrete,
}
use xtest.Prime.Sieve.Spec.{IsPrime, Composite}
use xtest.Prime.Sieve.Correct.{IsPrimeTable}
use xtest.Prime.Trial.{Globals, isprime}
use xtest.Prime.Trial.Correct.{isprime-table, counted}
use xtest.Prime.Search.{Decides, Decides-true, Decides-false, Decides-more, Ready, Ready-after, ask}
use xtest.Rotations.{FloatMath, rotate, after_rotation, rotation_loop, when_prime, rotation_round}
use xtest.Rotations.Spin.{turn, spin, spin_around}
use xtest.Decimal.{HasDigits, pow_mono}
use xtest.Rotations.Length.{IsFloatMath, rotate-turn}
use xtest.Rotations.Circular.{Circular, not-Circular, Circular-of, turn-HasDigits}

up_to : (P : ℕ → Type 0) (j : ℕ) → ((m : ℕ) → m ≤ j → P m) → P (suc j) → (m : ℕ) → m ≤ suc j → P m
up_to P j before at m le = elim (ℕ_discrete m (suc j)) [
  | yes same ↦ subst P (sym same) at
  | no differ ↦ before m (omega arith)
]

module _ (fm : FloatMath) (law : IsFloatMath fm) (w i : ℕ) (le : w ≤ 5) (h : HasDigits w i) where
  below_million : (y : ℕ) → HasDigits w y → y < 10 ^ 6
  below_million y d = let p = pow_mono (w + 1) 6 (omega arith) in omega arith

  not_around : (j : ℕ) → j ≤ w → ◌≢◌ {A = ℕ} (spin w (suc j) i) i → suc j ≤ w
  not_around j lt other = elim (ℕ_discrete j w) [
    | yes same ↦
        absurd (other (subst (λ n. spin w (suc n) i ≡ i) (sym same) (spin_around w i (h.1))))
    | no differ ↦ omega arith
  ]

  loop-Decides :
      (fuel j : ℕ) (g : Globals)
      → j ≤ w
      → w + 1 ≤ j + fuel
      → Ready fuel g
      → HasDigits w (spin w j i)
      → ((m : ℕ) → m ≤ j → IsPrime (spin w m i))
      → Decides (Circular i) fuel g (rotation_loop fm fuel i g (spin w j i))
  unfolding rotation_loop
  loop-Decides zero j g lt enough ready d primes = absurd (omega arith)
  loop-Decides (suc fuel) j g lt enough ready d primes =
      let y = spin w j i in
      let z = spin w (suc j) i in
      let turned : rotate fm y ≡ z = rotate-turn fm law w y le d.0 d.1 in
      let d' = turn-HasDigits w y d (primes j (omega arith)) in
      elim (ask fuel g z ready (below_million z d')) [
        | inr (e, composite) ↦
            Decides-false fuel g (rw (turned, e) refl) (not-Circular w (suc j) i h composite)
        | inl (e, prime) ↦ elim (ℕ_discrete z i) [
          | yes back ↦
              Decides-true fuel g (rw (turned, e) (ground (arith, back)))
                (Circular-of w j i h back primes)
          | no other ↦
              let inside : suc j ≤ w = not_around j lt other in
              let primes' = up_to (λ m. IsPrime (spin w m i)) j primes prime in
              Decides-more fuel g
                (loop-Decides fuel (suc j) (counted g) inside (omega arith)
                  (Ready-after fuel g ready) d' primes')
                (rw (turned, e) (ground (arith, other))) (λ c. c) (λ c. c)
        ]
      ]

  -- For a number of `w + 1` digits, at most 6, and a table of `10 ^ 6` numbers or more, `w + 1` rounds
  -- of the `for (;;)` are enough for it to end, and `allprime` is left set exactly when all rotations
  -- of the number are prime.
  pub round-Decides :
      (fuel : ℕ) (g : Globals)
      → w < fuel
      → Ready (suc fuel) g
      → Decides (Circular i) (suc fuel) g (rotation_round fm fuel i g)
  unfolding rotation_round
  round-Decides fuel g enough ready = elim (ask fuel g i ready (below_million i h)) [
    | inr (e, composite) ↦ Decides-false fuel g (rw e refl) (not-Circular w 0 i h composite)
    | inl (e, prime) ↦
        let only : (m : ℕ) → m ≤ 0 → IsPrime (spin w m i) = λ m small.
          let none_yet : 0 ≡ m = omega arith in subst (λ n. IsPrime (spin w n i)) none_yet prime in
        Decides-more fuel g
          (loop-Decides fuel 0 (counted g) (omega arith) (omega arith) (Ready-after fuel g ready) h
            only)
          (rw e refl) (λ c. c) (λ c. c)
  ]
