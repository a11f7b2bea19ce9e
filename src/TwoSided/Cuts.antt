-- ===== src/TwoSided/Cuts.antt =====
-- What is left of a number when digits are taken off, by powers of ten.
use native.Mathlib.Nat.{div-div-eq-div-mul, mod-mod_of_dvd, mod-eq_of_lt, mod-lt, dvd-mul_right}
use xtest.Base.{
  ℕ, zero, suc, ◌+◌, ◌-◌, ◌*◌, ◌/◌, ◌%◌, ◌^◌, ◌≤◌, ◌<◌, ◌≡◌, arith, ap, ◌∙◌, sym, dec_lt, subst,
}
use xtest.Base.Arith.{pow-add}
use xtest.Prime.Sieve.Spec.{IsPrime}
use xtest.Decimal.{HasDigits, ten_pow, pow_pos, pow_less}

-- Taking digits off the end, or off the front, leaves primes.
abbrev pub EndsPrime : ℕ → Type 0
EndsPrime y = (k : ℕ) → 1 ≤ k → 10 ^ k ≤ y → IsPrime (y / 10 ^ k)

abbrev pub FrontsPrime : ℕ → Type 0
FrontsPrime y = (k : ℕ) → 1 ≤ k → 10 ^ k ≤ y → IsPrime (y % 10 ^ k)

pub EndsPrime-small : (z : ℕ) → z < 10 → EndsPrime z
EndsPrime-small z lt zero pos le = absurd (omega arith)
EndsPrime-small z lt (suc k) pos le = let e = ten_pow k in let p = pow_pos k in absurd (omega arith)

pub FrontsPrime-small : (z : ℕ) → z < 10 → FrontsPrime z
FrontsPrime-small z lt zero pos le = absurd (omega arith)
FrontsPrime-small z lt (suc k) pos le =
    let e = ten_pow k in let p = pow_pos k in absurd (omega arith)

div_suc : (y k : ℕ) → y / 10 ^ suc k ≡ y / 10 / 10 ^ k
div_suc y k = rw (ten_pow k) (sym (div-div-eq-div-mul y 10 (10 ^ k)))

pub EndsPrime-of : (y : ℕ) → IsPrime (y / 10) → EndsPrime (y / 10) → EndsPrime y
EndsPrime-of y prime rest zero pos le = absurd (omega arith)
EndsPrime-of y prime rest (suc zero) pos le = prime
EndsPrime-of y prime rest (suc (suc k)) pos le =
    subst IsPrime (sym (div_suc y (suc k)))
      (rest (suc k) (omega arith) (omega (arith, ten_pow (suc k))))

pub EndsPrime-cut : (y : ℕ) → EndsPrime y → EndsPrime (y / 10)
EndsPrime-cut y all k pos le =
    subst IsPrime (div_suc y k) (all (suc k) (omega arith) (omega (arith, ten_pow k)))

-- A cut at a longer place first changes nothing.
mod_pow : (y w k : ℕ) → k ≤ w → y % 10 ^ w % 10 ^ k ≡ y % 10 ^ k
mod_pow y w k le =
    let split : w ≡ k + (w - k) = omega arith in
    let e : 10 ^ w ≡ 10 ^ k * 10 ^ (w - k) = ap (λ n. 10 ^ n) split ∙ pow-add 10 k (w - k) in
    rw e (mod-mod_of_dvd (10 ^ k) y (dvd-mul_right (10 ^ k) (10 ^ (w - k))))

module _ (y w : ℕ) (h : HasDigits w y) where
  pub FrontsPrime-of : IsPrime (y % 10 ^ w) → FrontsPrime (y % 10 ^ w) → FrontsPrime y
  FrontsPrime-of prime rest k pos le =
      let lt : k < w + 1 = pow_less k (w + 1) (omega arith) in
      let z = y % 10 ^ w in
      let same = mod_pow y w k (omega arith) in
      elim (dec_lt z (10 ^ k)) [
        | yes small ↦ subst IsPrime (sym (mod-eq_of_lt small) ∙ same) prime
        | no large ↦ subst IsPrime same (rest k pos (omega arith))
      ]

  pub FrontsPrime-cut : FrontsPrime y → FrontsPrime (y % 10 ^ w)
  FrontsPrime-cut all k pos le =
      let below = mod-lt y (pow_pos w) in
      let lt : k < w = pow_less k w (omega arith) in
      subst IsPrime (sym (mod_pow y w k (omega arith))) (all k pos (omega arith))

-- Prime, and prime with digits taken off either end.
abbrev pub TwoSidedPrime : ℕ → Type 0
TwoSidedPrime i = IsPrime i × (EndsPrime i × FrontsPrime i)
