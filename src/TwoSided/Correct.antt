-- ===== src/TwoSided/Correct.antt =====
-- Both loops end, and find out whether every cut leaves a prime.
pub mod Counting
use native.Mathlib.Nat.{mod-lt}
use xtest.Base.{
  ℕ, zero, suc, ◌+◌, ◌-◌, ◌*◌, ◌/◌, ◌%◌, ◌^◌, ◌≤◌, ◌<◌, ◌≡◌, arith, refl, ap, ◌∙◌, sym, dec_lt,
  subst, inl, inr, Bool, true, false, ◌&&◌, Bool-cases, Outcome, done, ◌>>=◌, require, ltb,
}
use xtest.Prime.Sieve.Spec.{IsPrime, Composite}
use xtest.Prime.Trial.{Globals, isprime}
use xtest.Prime.Trial.Correct.{counted}
use xtest.Prime.Search.{
  Decides, Decides-true, Decides-false, Decides-more, Ready, Ready-after, Ready-later, Ready-less,
  later, ask,
}
use xtest.Decimal.{HasDigits, pow_mono, pow_less, pow_pos, to_suc, ten_pow}
use xtest.TwoSided.{
  after_cut, drop_last_loop, drop_first, drop_first_loop, second_loop, when_prime, truncation_round,
}
use xtest.TwoSided.Cuts.{
  TwoSidedPrime, EndsPrime, EndsPrime-small, EndsPrime-of, EndsPrime-cut, FrontsPrime,
  FrontsPrime-small, FrontsPrime-of, FrontsPrime-cut,
}

-- What the program relies on: `log10` and `pow` are exact enough below 10 ^ 6.
abbrev pub IsLeadingPlace : (ℕ → ℕ) → Type 0
IsLeadingPlace leading_place =
    (x : ℕ) → 0 < x → x < 10 ^ 6 → (w : ℕ) × HasDigits w x × (leading_place x ≡ 10 ^ w)

-- Both loops come to their end in the rounds that `fuel` allows, as a number of at most `fuel + 1`
-- digits loses one in each.
drop_last-Decides :
    (fuel : ℕ) (g : Globals) (y : ℕ)
    → 10 ≤ y
    → y < 10 ^ 6
    → y < 10 ^ (fuel + 1)
    → Ready fuel g
    → Decides (EndsPrime y) fuel g (drop_last_loop fuel g y)
unfolding drop_last_loop
drop_last-Decides zero g y ten small lt ready = absurd (omega arith)
drop_last-Decides (suc fuel) g y ten small lt ready =
    elim (ask fuel g (y / 10) ready (omega arith)) [
      | inr (e, composite) ↦
          Decides-false fuel g (rw e refl) (λ all. composite (all 1 (omega arith) (omega arith)))
      | inl (e, prime) ↦ elim (dec_lt (y / 10) 10) [
        | yes stop ↦
            Decides-true fuel g (rw e (ground (arith, stop)))
              (EndsPrime-of y prime (EndsPrime-small (y / 10) stop))
        | no more ↦
            let shorter : y / 10 < 10 ^ (fuel + 1) =
              let e = to_suc (fuel + 1) in let a = one_more fuel in omega arith in
            Decides-more fuel g
              (drop_last-Decides fuel (counted g) (y / 10) (omega arith) (omega arith) shorter
                (Ready-after fuel g ready))
              (rw e (ground (arith, more))) (EndsPrime-of y prime) (EndsPrime-cut y)
      ]
    ]
  where
    one_more : (n : ℕ) → 10 ^ (suc n + 1) ≡ 10 ^ (n + 1 + 1)
    one_more n = ap (λ k. 10 ^ k) (omega arith)

module _ (leading_place : ℕ → ℕ) (law : IsLeadingPlace leading_place) where
  drop_first-Decides :
      (fuel : ℕ) (g : Globals) (y : ℕ)
      → 10 ≤ y
      → y < 10 ^ 6
      → y < 10 ^ (fuel + 1)
      → Ready fuel g
      → Decides (FrontsPrime y) fuel g (drop_first_loop leading_place fuel g y)
  unfolding drop_first_loop
  drop_first-Decides zero g y ten small lt ready = absurd (omega arith)
  drop_first-Decides (suc fuel) g y ten small lt ready =
      let (w, h, place) = law y (omega arith) small in
      let z = y % 10 ^ w in
      let cuts : drop_first leading_place y ≡ done z = rw place (ground (arith, pow_pos w)) in
      let one : 1 < w + 1 = pow_less 1 (w + 1) (omega arith) in
      let short : w < suc fuel + 1 = pow_less w (suc fuel + 1) (omega arith) in
      let part : z < 10 ^ w = mod-lt y (pow_pos w) in
      let most : 10 ^ w ≤ 10 ^ (fuel + 1) = pow_mono w (fuel + 1) (omega arith) in
      let below : z < 10 ^ 6 = omega arith in
      elim (ask fuel g z ready below) [
        | inr (e, composite) ↦
            Decides-false fuel g (rw (cuts, e) refl) (λ all. composite (all w (omega arith) (h.0)))
        | inl (e, prime) ↦ elim (dec_lt z 10) [
          | yes stop ↦
              Decides-true fuel g (rw (cuts, e) (ground (arith, stop)))
                (FrontsPrime-of y w h prime (FrontsPrime-small z stop))
          | no more ↦
              Decides-more fuel g
                (drop_first-Decides fuel (counted g) z (omega arith) below (omega arith)
                  (Ready-after fuel g ready))
                (rw (cuts, e) (ground (arith, more))) (FrontsPrime-of y w h prime)
                (FrontsPrime-cut y w h)
        ]
      ]

  -- The second loop runs after the first, whatever that has found.
  both-Decides :
      (i : ℕ) (g : Globals)
      → 10 ≤ i
      → i < 10 ^ 6
      → Ready 10 g
      → Decides (EndsPrime i × FrontsPrime i) 10 g (when_prime leading_place 5 i (true, g))
  both-Decides i g ten small ready =
      let a = drop_last-Decides 5 g i ten small small (Ready-less 10 5 g (omega arith) ready) in
      let b =
        drop_first-Decides 5 (later g a.calls) i ten small small
          (Ready-later 5 5 a.calls g a.few ready) in
      let counts : g.allall + a.calls + b.calls ≡ g.allall + (a.calls + b.calls) = omega arith in
      record {
        answer = a.answer && b.answer;
        calls = a.calls + b.calls;
        few = omega (arith, a.few, b.few);
        returns =
            rw (a.returns, b.returns)
              (ap (λ n. done (a.answer && b.answer, record g { allall = n })) counts);
        holds = λ x. (a.holds (ground arith), b.holds (ground arith));
        fails = λ x p. elim (Bool-cases a.answer) [
          | inl t ↦ b.fails (ground arith) (p.1)
          | inr f ↦ a.fails f (p.0)
        ];
      }

  -- One number of two to six digits: five rounds of each `for (;;)` are enough.
  pub round-Decides :
      (i : ℕ) (g : Globals)
      → 10 ≤ i
      → i < 10 ^ 6
      → Ready 11 g
      → Decides (TwoSidedPrime i) 11 g (truncation_round leading_place 5 i g)
  unfolding truncation_round
  round-Decides i g ten small ready = elim (ask 10 g i ready small) [
    | inr (e, composite) ↦ Decides-false 10 g (rw e refl) (λ p. composite (p.0))
    | inl (e, prime) ↦
        Decides-more 10 g (both-Decides i (counted g) ten small (Ready-after 10 g ready))
          (rw e refl) (λ p. (prime, p)) (λ p. p.1)
  ]
