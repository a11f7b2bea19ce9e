-- ===== src/Squares/Correct.antt =====
-- `issquare` decides whether a number is a square.
use xtest.Base.{
  ℕ, ◌+◌, ◌*◌, ◌%◌, ◌^◌, ◌≤◌, ◌<◌, ◌≡◌, ◌≢◌, ◌↔◌, Bool, true, false, ◌==◌, Outcome, done, arith, ap,
  ◌∙◌, refl, u64, ℕ_discrete, subst, dec_lt,
}
use xtest.Squares.{jacobi, Sign, negative, nothing, positive, by_root, issquare}
use xtest.Squares.Residues.{jacobi-returns, square-jacobi, square-even, square-odd}

-- What the program relies on: below 2 ^ 52, `sqrt` cut to an integer is the largest whose square fits.
abbrev pub IsRoot : (ℕ → ℕ) → Type 0
IsRoot sqrt = (v : ℕ) → v < 2 ^ 52 → (sqrt v * sqrt v ≤ v) × (v < (sqrt v + 1) * (sqrt v + 1))

abbrev pub IsSquare : ℕ → Type 0
IsSquare v = (x : ℕ) × (x * x ≡ v)

root_unique : (r x : ℕ) → r * r ≤ x * x → x * x < (r + 1) * (r + 1) → r ≡ x
root_unique r x lo hi = elim (dec_lt r x) [
  | yes below ↦ let p : (r + 1) * (r + 1) ≤ x * x = grind arith in absurd (omega arith)
  | no a ↦ elim (dec_lt x r) [
    | yes above ↦ let p : (x + 1) * (x + 1) ≤ r * r = grind arith in absurd (omega (arith, p))
    | no b ↦ omega arith
  ]
]

-- An outcome that decides `P`.
abbrev Answers : Outcome Bool → Type 0 → Type 0
Answers run P = (b : Bool) × (run ≡ done b) × ((b ≡ true) ↔ P)

refused : {run : Outcome Bool} {P : Type 0} → run ≡ done false → ¬ P → Answers run P
refused e none = (false, e, (λ t. absurd cc, λ p. absurd (none p)))

module _ (sqrt : ℕ → ℕ) (root : IsRoot sqrt) (v : ℕ) (small : v < 2 ^ 52) where
  root_test : Answers (done (v == u64 (sqrt v * sqrt v))) (IsSquare v)
  root_test =
      let law = root v small in
      let fits : u64 (sqrt v * sqrt v) ≡ sqrt v * sqrt v = omega (arith, law.0) in
      elim (ℕ_discrete (sqrt v * sqrt v) v) [
        | yes same ↦ (true, ap done (ground (arith, fits, same)), (λ _. (sqrt v, same), λ _. refl))
        | no other ↦ refused (ap done (ground (arith, fits, other))) (λ (x, e).
            let lo : sqrt v * sqrt v ≤ x * x = omega (arith, law.0, e) in
            let hi : x * x < (sqrt v + 1) * (sqrt v + 1) = omega (arith, law.1, e) in
            let r = root_unique (sqrt v) x lo hi in other (ap (λ t. t * t) r ∙ e))
      ]

  by_root-Answers : (s : Sign) → jacobi 18 v 17 ≡ done s → Answers (by_root sqrt v s) (IsSquare v)
  by_root-Answers negative e =
      refused refl (λ (x, q). square-jacobi x (ap (λ t. jacobi 18 t 17) q ∙ e))
  by_root-Answers nothing e = root_test
  by_root-Answers positive e = root_test

  -- For a number below 2 ^ 52, `issquare` ends (no number takes `jacobi` more than 18 rounds, or more
  -- than 65 in one halving), and answers whether the number is a square.
  pub issquare_lem : (b : Bool) × (issquare sqrt v ≡ done b) × ((b ≡ true) ↔ IsSquare v)
  unfolding issquare
  issquare_lem =
      let (s, e) = jacobi-returns v in
      elim (ℕ_discrete (v % 2) 0) [
        | yes even ↦ elim (ℕ_discrete (v % 4) 0) [
          | yes four ↦ rw (even, four, e) (by_root-Answers s e)
          | no not_four ↦
              refused (ground (arith, even, not_four))
                (λ (x, q). not_four (subst (λ t. t % 2 ≡ 0 → t % 4 ≡ 0) q (square-even x) even))
        ]
        | no odd ↦
            let one : v % 2 ≡ 1 = omega arith in
            elim (ℕ_discrete (v % 8) 1) [
              | yes eight ↦ rw (one, eight, e) (by_root-Answers s e)
              | no not_eight ↦ refused (ground (arith, one, not_eight)) (λ (x, q).
                  not_eight (subst (λ t. ◌≢◌ {A = ℕ} (t % 2) 0 → t % 8 ≡ 1) q (square-odd x) odd))
            ]
      ]
