-- ===== src/Gcd/Correct.antt =====
-- Both routines compute the greatest common divisor.
use xtest.Base.{
  ℕ, zero, suc, ◌%◌, ◌≤◌, ◌<◌, ◌∣◌, ◌≡◌, min, ◌==◌, ◌&&◌, done, arith, Bool-cases, ℕ_discrete, inl,
  inr, refl, ap, ◌∙◌, subst,
}
use native.Mathlib.Nat.{
  dvd_refl, dvd-zero, one-dvd, le_of_dvd, pos_of_dvd_of_pos, dvd-mod_iff, dvd_of_mod-eq-zero,
  mod-eq-zero_of_dvd, mod-lt,
}
use xtest.Gcd.{gcd_loop, gcd, gcdfast_loop, gcdfast}

-- `d` divides both, and every common divisor divides `d`.
abbrev pub IsGcd : ℕ → ℕ → ℕ → Type 0
IsGcd d x y = (d ∣ x) × (d ∣ y) × ((e : ℕ) → e ∣ x → e ∣ y → e ∣ d)

pos : (y : ℕ) → 0 < suc y
pos y = omega arith

gcdfast_loop_lem :
    (fuel x y : ℕ) → y < fuel → (d : ℕ) × (gcdfast_loop fuel x y ≡ done d) × IsGcd d x y
unfolding gcdfast_loop
gcdfast_loop_lem zero x y h = absurd (omega arith)
gcdfast_loop_lem (suc fuel) x zero h = (x, refl, (dvd_refl x, dvd-zero x, λ e p q. p))
gcdfast_loop_lem (suc fuel) x (suc y) h =
    let (d, e, (p, q, r)) =
      gcdfast_loop_lem fuel (suc y) (x % suc y) (omega (arith, mod-lt x (pos y))) in
    (d, ground (arith, e), ((dvd-mod_iff d p).0 q, p, λ c k l. r c l ((dvd-mod_iff c l).1 k)))

-- The loop finds the greatest number up to `i` that divides both.
gcd_loop_lem :
    (x y i : ℕ)
    → (gcd_loop x y i ∣ x)
      × (gcd_loop x y i ∣ y)
      × ((e : ℕ) → 0 < e → e ≤ i → e ∣ x → e ∣ y → e ≤ gcd_loop x y i)
unfolding gcd_loop
gcd_loop_lem x y zero = (one-dvd x, one-dvd y, λ e pos le p q. absurd (omega arith))
gcd_loop_lem x y (suc i) = elim (Bool-cases ((x % suc i == 0) && (y % suc i == 0))) [
  | inl hit ↦ rw hit (
    dvd_of_mod-eq-zero (suc i) (ground arith),
    dvd_of_mod-eq-zero (suc i) (ground arith),
    λ e pos le p q. le,
  )
  | inr miss ↦
      let (p, q, r) = gcd_loop_lem x y i in
      rw miss (
        p,
        q,
        λ e pos le a b. elim (ℕ_discrete e (suc i)) [
          | yes same ↦ absurd (ground (arith, mod-eq-zero_of_dvd e a, mod-eq-zero_of_dvd e b))
          | no below ↦ r e pos (omega arith) a b
        ],
      )
]

ends_meet : {a b : ℕ} → a ≤ b → b ≤ a → a ≡ b
ends_meet h k = omega arith

-- For positive arguments the slow search from the smaller one down and Euclid's loop both end with
-- the greatest common divisor, and so agree.
pub gcd-gcdfast : (x y : ℕ) → 0 < x → 0 < y → IsGcd (gcd x y) x y × (gcdfast x y ≡ done (gcd x y))
unfolding gcd gcdfast
gcd-gcdfast x y px py =
    let (d, e, (a, b, c)) = gcdfast_loop_lem (suc y) x y (omega arith) in
    let (p, q, r) = gcd_loop_lem x y (min x y) in
    let dpos : 0 < d = pos_of_dvd_of_pos a px in
    let same : d ≡ gcd_loop x y (min x y) =
      ends_meet (r d dpos (omega (arith, le_of_dvd px a, le_of_dvd py b)) a b)
        (le_of_dvd dpos (c (gcd_loop x y (min x y)) p q)) in
    ((p, q, λ k h1 h2. subst (λ t. k ∣ t) same (c k h1 h2)), e ∙ ap done same)
