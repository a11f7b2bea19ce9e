-- ===== src/Prime/Trial/Accepted.antt =====
-- What the loop over `bases` answers.
use native.Mathlib.Nat.{two-pow-succ}
use mathlib.Core.Path.{subst₂}
use xtest.Base.{
  ℕ, zero, suc, ◌-◌, ◌*◌, ◌%◌, ◌^◌, ◌≤◌, ◌<◌, ◌≡◌, refl, ap, sym, ◌∙◌, ◌⊎◌, inl, inr, Bool, true,
  false, done, Bool-cases, arith, ◌↔◌, ℕ_discrete, List, [], ◌∷◌,
}
use xtest.Prime.MillerRabin.{miller_rabin_test}
use xtest.Prime.MillerRabin.Correct.{IsStrongProbablePrime, miller_rabin_test_lem}
use xtest.Prime.Trial.{try_bases}

abbrev pub Passes : ℕ → ℕ → Type 0
Passes n a = (d s : ℕ) × (n - 1 ≡ 2 ^ s * d) × (d % 2 ≡ 1) × IsStrongProbablePrime n a d s

-- The odd part of a number is unique.
odd_part_unique : (s t d e : ℕ) → d % 2 ≡ 1 → e % 2 ≡ 1 → 2 ^ s * d ≡ 2 ^ t * e → (s ≡ t) × (d ≡ e)
odd_part_unique zero zero d e od oe h = (refl, omega arith)
odd_part_unique zero (suc t) d e od oe h = absurd (
    let k : 2 ^ suc t * e ≡ 2 * (2 ^ t * e) =
      omega (arith, ap (λ (x : ℕ). x * e) (two-pow-succ t)) in
    omega arith)
odd_part_unique (suc s) zero d e od oe h = absurd (
    let k : 2 ^ suc s * d ≡ 2 * (2 ^ s * d) =
      omega (arith, ap (λ (x : ℕ). x * d) (two-pow-succ s)) in
    omega arith)
odd_part_unique (suc s) (suc t) d e od oe h =
    let k : 2 ^ suc s * d ≡ 2 * (2 ^ s * d) =
      omega (arith, ap (λ (x : ℕ). x * d) (two-pow-succ s)) in
    let l : 2 ^ suc t * e ≡ 2 * (2 ^ t * e) =
      omega (arith, ap (λ (x : ℕ). x * e) (two-pow-succ t)) in
    let ih = odd_part_unique s t d e od oe (omega arith) in (ap suc ih.0, ih.1)

-- One base: the test answers, and answers 1 exactly if `n` passes.
test-Passes :
    (n a : ℕ)
    → n % 2 ≡ 1
    → 1 < n
    → n ≤ 2 ^ 63
    → (answer : Bool) × (miller_rabin_test n a ≡ done answer) × ((answer ≡ true) ↔ Passes n a)
test-Passes n a odd big small =
    let (d, s, product, od, answer, returns, meaning) = miller_rabin_test_lem n a odd big small in
    (
      answer,
      returns,
      (
        λ h. (d, s, product, od, meaning.0 h),
        λ (d', s', product', od', strong).
            let same = odd_part_unique s s' d d' od od' (sym product ∙ product') in
            meaning.1
              (subst₂ (λ x y. IsStrongProbablePrime n a x y) (sym same.1) (sym same.0) strong),
      ),
    )

-- `n` is one of the bases, or passes for each base up to there.
abbrev pub IsAccepted : ℕ → List ℕ → Type 0
IsAccepted n [] = Unit
IsAccepted n (a ∷ as') = (n ≡ a) ⊎ (Passes n a × IsAccepted n as')

bases_step :
    (n a : ℕ) (as' : List ℕ)
    → (answer : Bool) × (miller_rabin_test n a ≡ done answer) × ((answer ≡ true) ↔ Passes n a)
    → (answer : Bool) × (try_bases n as' ≡ done answer) × ((answer ≡ true) ↔ IsAccepted n as')
    → (answer : Bool) × (try_bases n (a ∷ as') ≡ done answer)
      × ((answer ≡ true) ↔ IsAccepted n (a ∷ as'))
unfolding try_bases
bases_step n a as' (first, ran, meaning) (rest, ran', meaning') = elim (ℕ_discrete n a) [
  | yes same ↦ (true, ground arith, (λ h. inl same, λ h. refl))
  | no other ↦ elim (Bool-cases first) [
    | inl passed ↦ (
      rest,
      ground arith,
      (
        λ h. inr (meaning.0 passed, meaning'.0 h),
        λ h. elim h [ inl same ↦ absurd (other same) | inr (p, q) ↦ meaning'.1 q ],
      ),
    )
    | inr failed ↦ (
      false,
      ground arith,
      (
        λ h. absurd (cc),
        λ h. elim h [
          | inl same ↦ absurd (other same)
          | inr (p, q) ↦ absurd (let k = meaning.1 p in ground arith)
        ],
      ),
    )
  ]
]

pub try_bases_lem :
    (n : ℕ) (as' : List ℕ)
    → n % 2 ≡ 1
    → 1 < n
    → n ≤ 2 ^ 63
    → (answer : Bool) × (try_bases n as' ≡ done answer) × ((answer ≡ true) ↔ IsAccepted n as')
try_bases_lem n [] odd big small = (true, unfold try_bases in refl, (λ h. tt, λ h. refl))
try_bases_lem n (a ∷ as') odd big small =
    bases_step n a as' (test-Passes n a odd big small) (try_bases_lem n as' odd big small)
