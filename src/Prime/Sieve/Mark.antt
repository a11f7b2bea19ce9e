-- ===== src/Prime/Sieve/Mark.antt =====
-- The inner loop clears the bits of `j`, `j + step`, `j + 2 * step` and so on, and no other.
use xtest.Base.{
  ℕ, zero, suc, ◌+◌, ◌*◌, ◌/◌, ◌%◌, ◌^◌, ◌≤◌, ◌<◌, ◌≡◌, ◌⊎◌, inl, inr, refl, ◌∙◌, false, List,
  length, arith, Outcome, done, Bool-cases, dec_lt, ◌==◌,
}
use xtest.Prime.Bitmap.Laws.{flag, IsBytes, put, setbit-put, length-put, put-IsBytes, flag-put}
use xtest.Prime.Sieve.{mark}

-- `out` is `p` with the bits from `j` on, `step` apart, cleared.
pub record IsMarked (p : List ℕ) (j step limit : ℕ) (run : Outcome (List ℕ)) : Type 0 where
  pub out : List ℕ
  pub returns : run ≡ done out
  pub same_length : length out ≡ length p
  pub bytes : IsBytes out
  pub keeps : (n : ℕ) → n % 2 ≡ 1 → flag p n ≡ false → flag out n ≡ false
  pub hits : (n m : ℕ) → n % 2 ≡ 1 → n < limit → n ≡ j + m * step → flag out n ≡ false
  pub only :
      (n : ℕ) → n % 2 ≡ 1 → flag out n ≡ false → (flag p n ≡ false) ⊎ ((m : ℕ) × (n ≡ j + m * step))

module _ (step limit : ℕ) (pos : 0 < step) (small : limit ≤ 2 ^ 62) (narrow : step ≤ 2 ^ 62) where
  mark_done :
      (fuel : ℕ) (p : List ℕ) (j : ℕ)
      → limit ≤ j
      → IsBytes p
      → IsMarked p j step limit (mark (suc fuel) p j step limit)
  mark_done fuel p j stop bytes = record {
    out = p;
    returns = unfold mark in ground arith;
    same_length = refl;
    bytes = bytes;
    keeps = λ n odd h. h;
    hits = λ n m odd lt e. absurd (omega arith);
    only = λ n odd h. inl h;
  }

  mark_step :
      (fuel : ℕ) (p : List ℕ) (j : ℕ)
      → j < limit
      → j / 2 / 8 < length p
      → mark (suc fuel) p j step limit ≡ mark fuel (put p j false) (j + step) step limit
  unfolding mark
  mark_step fuel p j lt fits = ground (arith, setbit-put p j fits false)

  IsMarked-put :
      {p : List ℕ} {j : ℕ} {run : Outcome (List ℕ)}
      → j < limit
      → j / 2 / 8 < length p
      → IsBytes p
      → IsMarked (put p j false) (j + step) step limit run
      → IsMarked p j step limit run
  IsMarked-put {p} {j} lt fits bytes r = record {
    out = r.out;
    returns = r.returns;
    same_length = r.same_length ∙ length-put p j fits false;
    bytes = r.bytes;
    keeps = λ n odd h. r.keeps n odd (ground (arith, flag-put p j fits bytes false n odd));
    hits = hits;
    only = λ n odd h. only n odd (r.only n odd h);
  }
    where
      hits : (n m : ℕ) → n % 2 ≡ 1 → n < limit → n ≡ j + m * step → flag r.out n ≡ false
      hits n zero odd below e = r.keeps n odd (ground (arith, flag-put p j fits bytes false n odd))
      hits n (suc m) odd below e = r.hits n m odd below (omega arith)

      only :
          (n : ℕ)
          → n % 2 ≡ 1
          → (flag (put p j false) n ≡ false) ⊎ ((m : ℕ) × (n ≡ j + step + m * step))
          → (flag p n ≡ false) ⊎ ((m : ℕ) × (n ≡ j + m * step))
      only n odd (inr (m, e)) = inr (suc m, omega arith)
      only n odd (inl h) = elim (Bool-cases (n == j)) [
        | inl hit ↦ inr (0, ground arith)
        | inr miss ↦ inl (ground (arith, flag-put p j fits bytes false n odd))
      ]

  pub mark-IsMarked :
      (fuel : ℕ) (p : List ℕ) (j : ℕ)
      → limit ≤ j + fuel
      → limit ≤ 16 * length p
      → IsBytes p
      → IsMarked p j step limit (mark (suc fuel) p j step limit)
  mark-IsMarked zero p j enough room bytes = mark_done zero p j (omega arith) bytes
  mark-IsMarked (suc fuel) p j enough room bytes = elim (dec_lt j limit) [
    | no stop ↦ mark_done (suc fuel) p j (omega arith) bytes
    | yes lt ↦
        let fits : j / 2 / 8 < length p = omega arith in
        rw (mark_step (suc fuel) p j lt fits) (
          IsMarked-put lt fits bytes (
            mark-IsMarked fuel (put p j false) (j + step) (omega arith)
              (omega (arith, length-put p j fits false)) (put-IsBytes p j fits bytes false)))
  ]
