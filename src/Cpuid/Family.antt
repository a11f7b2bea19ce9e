-- ===== src/Cpuid/Family.antt =====
-- Family, model and stepping decode the processor's signature.
use xtest.Base.{
  ℕ, ◌+◌, ◌/◌, ◌%◌, ◌*◌, ◌^◌, ◌<◌, ◌≡◌, ◌==◌, Bool, true, ◌&&◌, bit_and, bit_or, arith, refl, ◌∙◌,
  ap,
}
use xtest.Base.Check.{passes_under, passes_under-lt}
use xtest.Cpuid.Main.{family, model, stepping}

high_test : ℕ → Bool
high_test k = (bit_and k 0xff0 == k / 16 * 16) && (bit_or (k % 16) (k / 16 * 16) == k)

middle_test : ℕ → Bool
middle_test k = bit_and k 0xf0 == k % 256 / 16 * 16

high_tests : passes_under high_test 4096 ≡ true
unfolding passes_under high_test
high_tests = refl

middle_tests : passes_under middle_test 65536 ≡ true
unfolding passes_under middle_test
middle_tests = refl

and_ff0 : (k : ℕ) → k < 4096 → bit_and k 0xff0 ≡ k / 16 * 16
unfolding high_test
and_ff0 k lt = ground (arith, passes_under-lt high_test 4096 k lt high_tests)

or_parts : (k : ℕ) → k < 4096 → bit_or (k % 16) (k / 16 * 16) ≡ k
unfolding high_test
or_parts k lt = ground (arith, passes_under-lt high_test 4096 k lt high_tests)

and_f0 : (k : ℕ) → k < 65536 → bit_and k 0xf0 ≡ k % 256 / 16 * 16
unfolding middle_test
and_f0 k lt = ground (arith, passes_under-lt middle_test 65536 k lt middle_tests)

or_low : (x y : ℕ) → x < 16 → y < 256 → bit_or x (y * 16) ≡ x + y * 16
or_low x y lx ly =
    let k = x + y * 16 in
    let low : k % 16 ≡ x = omega arith in
    let high : k / 16 ≡ y = omega arith in let e = or_parts k (omega arith) in cc

family-parts : (a : ℕ) → a < 2 ^ 28 → family a ≡ a / 2 ^ 8 % 16 + 16 * (a / 2 ^ 20)
unfolding family
family-parts a lt =
    let e = and_ff0 (a / 2 ^ 16) (omega arith) in
    let g = or_low (a / 2 ^ 8 % 16) (a / 2 ^ 16 / 16) (omega arith) (omega arith) in
    ap (λ t. bit_or (a / 2 ^ 8 % 16) t) e ∙ g ∙ omega arith

model-parts : (a : ℕ) → a < 2 ^ 28 → model a ≡ a / 2 ^ 4 % 16 + 16 * (a / 2 ^ 16 % 16)
unfolding model
model-parts a lt =
    let e = and_f0 (a / 2 ^ 12) (omega arith) in
    let g = or_low (a / 2 ^ 4 % 16) (a / 2 ^ 12 % 256 / 16) (omega arith) (omega arith) in
    ap (λ t. bit_or (a / 2 ^ 4 % 16) t) e ∙ g ∙ omega arith

-- The signature of leaf 1, below 2 ^ 28 as its top four bits are reserved, is recovered from the
-- printed family, model and stepping and the bits 12 to 15, which are in none of them.
pub signature_round_trip :
    (a : ℕ)
    → a < 2 ^ 28
    → a
      ≡ stepping a
        + 2 ^ 4 * (model a % 16)
        + 2 ^ 8 * (family a % 16)
        + 2 ^ 12 * (a / 2 ^ 12 % 16)
        + 2 ^ 16 * (model a / 16)
        + 2 ^ 20 * (family a / 16)
unfolding stepping
signature_round_trip a lt = omega (arith, family-parts a lt, model-parts a lt)
