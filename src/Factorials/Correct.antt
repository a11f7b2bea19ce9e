-- ===== src/Factorials/Correct.antt =====
-- `t` is the sum of the factorials, modulo its argument.
use native.Mathlib.Nat.{add-mod-mod, mod-lt, mod-eq_of_lt}
use xtest.Base.{
  true, false, ℕ, zero, suc, ◌+◌, ◌-◌, ◌*◌, ◌%◌, ◌^◌, ◌≤◌, ◌<◌, ◌≡◌, ◌==◌, ltb, done, u64, arith,
  refl, ap, ◌∙◌, sym,
}
use xtest.Base.Arith.{mul-mod_left}
use xtest.Factorials.{u128, fact_loop, fact_mod, t_loop, t}

pub factorial : ℕ → ℕ
factorial zero = 1
factorial (suc n) = factorial n * suc n

-- (p - k)! + (p - k - 1)! + ..., of `n` terms.
pub factorial_sum : ℕ → ℕ → ℕ → ℕ
factorial_sum zero k p = 0
factorial_sum (suc n) k p = factorial (p - k) + factorial_sum n (k + 1) p

module _ (p : ℕ) (some_p : 1 < p) (small : p < 2 ^ 31) where
  round-fits : (res i : ℕ) → res < p → i < 2 ^ 31 → u128 (res * i) ≡ res * i
  round-fits res i lt fits = let bound : res * i ≤ 2 ^ 31 * 2 ^ 31 = grind arith in omega arith

  fact_loop_lem :
      (rounds i : ℕ)
      → i + rounds < 2 ^ 31 - 1
      → fact_loop rounds (suc i) (factorial i % p) p ≡ done (factorial (i + rounds) % p)
  unfolding fact_loop factorial
  fact_loop_lem zero i fits = ap (λ n. done (factorial n % p)) (omega arith)
  fact_loop_lem (suc rounds) i fits =
      let nonzero : (p == 0) ≡ false = ground arith in
      let room : ltb (suc i) (2 ^ 31 - 1) ≡ true = ground arith in
      let whole =
        round-fits (factorial i % p) (suc i) (mod-lt (factorial i) (omega arith)) (omega arith) in
      let step : u128 (factorial i % p * suc i) % p ≡ factorial (suc i) % p =
        ap (λ n. n % p) whole ∙ mul-mod_left (factorial i) (suc i) p in
      let next : suc i + 1 ≡ suc (suc i) = omega arith in
      rw (nonzero, room, step, next)
        (fact_loop_lem rounds (suc i) (omega arith)
          ∙ ap (λ n. done (factorial n % p)) (omega arith))

  fact_mod_lem : (n : ℕ) → n < 2 ^ 31 - 1 → fact_mod n p ≡ done (factorial n % p)
  unfolding fact_mod factorial
  fact_mod_lem n fits =
      ap (λ r. fact_loop n 1 r p) (sym (mod-eq_of_lt some_p))
      ∙ fact_loop_lem n 0 (omega arith)
      ∙ ap (λ m. done (factorial m % p)) (omega arith)

  t_loop_lem :
      (rounds k sum : ℕ)
      → k + rounds ≤ p + 1
      → 1 ≤ k
      → sum + rounds * 2 ^ 31 < 2 ^ 100
      → (s : ℕ) × (t_loop rounds k sum p ≡ done s) × (s % p ≡ (sum + factorial_sum rounds k p) % p)
  unfolding t_loop factorial_sum
  t_loop_lem zero k sum inside pos fits = (sum, refl, ap (λ n. n % p) (omega arith))
  t_loop_lem (suc rounds) k sum inside pos fits =
      let f = factorial (p - k) % p in
      let less = mod-lt (factorial (p - k)) {m = p} (omega arith) in
      let arg : u64 (p + 2 ^ 64 - k) ≡ p - k = omega arith in
      let e = fact_mod_lem (p - k) (omega arith) in
      let added : u128 (sum + f) ≡ sum + f = omega arith in
      let stepped : t_loop (suc rounds) k sum p ≡ t_loop rounds (k + 1) (sum + f) p =
        rw (arg, e, added) refl in
      let (s, run, m) =
        t_loop_lem rounds (k + 1) (sum + f) (omega arith) (omega arith) (omega arith) in
      let more = factorial_sum rounds (k + 1) p in
      let order : sum + f + more ≡ sum + more + f = omega arith in
      let back : sum + more + factorial (p - k) ≡ sum + (factorial (p - k) + more) = omega arith in
      (
        s,
        stepped ∙ run,
        m
            ∙ ap (λ n. n % p) order
            ∙ add-mod-mod (sum + more) (factorial (p - k)) p
            ∙ ap (λ n. n % p) back,
      )

  -- For 5 <= p < 2 ^ 31, `t` returns, with no overflow, the remainder of
  -- (p - 1)! + (p - 2)! + (p - 3)! + (p - 4)! + (p - 5)! by p.
  pub t_lem : 5 ≤ p → t p ≡ done (factorial_sum 5 1 p % p)
  unfolding t
  t_lem five =
      let (s, run, m) = t_loop_lem 5 1 0 (omega arith) (omega arith) (omega arith) in
      let nonzero : (p == 0) ≡ false = ground arith in
      let less = mod-lt s {m = p} (omega arith) in
      let fits : u64 (s % p) ≡ s % p = omega arith in
      let returned : t p ≡ done (s % p) = rw (run, nonzero, fits) refl in
      returned ∙ ap done (m ∙ ap (λ n. n % p) (omega arith))
