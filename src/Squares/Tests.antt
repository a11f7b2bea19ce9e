-- ===== src/Squares/Tests.antt =====
-- The test for squares at concrete numbers.
use xtest.Base.{
  if◌then◌else◌, ℕ, ◌+◌, ◌*◌, ◌≤◌, ◌<◌, ◌≡◌, ◌↔◌, Bool, true, false, leb, done, arith, refl, zero,
  suc, dec_lt,
}
use xtest.Squares.{jacobi, jacobi_loop, halve_loop, negative, issquare}
use xtest.Squares.Correct.{IsRoot, IsSquare, issquare_lem}

-- The largest number whose square fits, by counting up.
unfoldable root_up_to : ℕ → ℕ → ℕ
root_up_to v zero = 0
root_up_to v (suc n) = let less = root_up_to v n in if leb (suc n * suc n) v then suc n else less

abbrev root : ℕ → ℕ
root v = root_up_to v v

three_is_no_residue : jacobi 18 3 17 ≡ done negative
unfolding jacobi jacobi_loop halve_loop
three_is_no_residue = refl

root_up_to_lem :
    (v n : ℕ)
    → (root_up_to v n * root_up_to v n ≤ v)
      × (v < (n + 1) * (n + 1) → v < (root_up_to v n + 1) * (root_up_to v n + 1))
unfolding root_up_to
root_up_to_lem v zero = (omega arith, λ lt. lt)
root_up_to_lem v (suc n) =
    let (lo, hi) = root_up_to_lem v n in
    elim (dec_lt v (suc n * suc n)) [
      | yes less ↦
          let test : leb (suc n * suc n) v ≡ false = ground arith in
          let e : n + 1 ≡ suc n = omega arith in rw test (lo, λ _. hi (rw e less))
      | no more ↦
          let test : leb (suc n * suc n) v ≡ true = ground arith in rw test (omega arith, λ lt. lt)
    ]

root-IsRoot : IsRoot root
root-IsRoot v small =
    let (lo, hi) = root_up_to_lem v v in
    let far : v < (v + 1) * (v + 1) = grind arith in (lo, hi far)

issquare_lem_example : (b : Bool) × (issquare root 49 ≡ done b) × ((b ≡ true) ↔ IsSquare 49)
issquare_lem_example = issquare_lem root root-IsRoot 49 (omega arith)
