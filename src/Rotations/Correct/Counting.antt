-- ===== src/Rotations/Correct/Counting.antt =====
-- The loop of `main`, and `main` as a whole.
use xtest.Base.{
  ℕ, zero, suc, ◌+◌, ◌-◌, ◌%◌, ◌*◌, ◌^◌, ◌≤◌, ◌<◌, ◌≡◌, arith, ap, refl, ◌∙◌, inl, inr, Outcome,
  done, List, [], ◌∷◌, u64, Bool-cases, length,
}
use xtest.Prime.Bitmap.{bits}
use xtest.Prime.Wheel.Correct.{sieve2_lem}
use xtest.Prime.Trial.{Globals}
use xtest.Rotations.{FloatMath, rotation_round, count_rotations, rotations_main}
use xtest.Decimal.{digits_of}
use xtest.Rotations.Length.{IsFloatMath}
use xtest.Rotations.Circular.{Circular}
use xtest.Prime.Search.{
  later, Ready, Ready-less, Ready-later, Decides, Selected, nothing, hit, miss,
}
use xtest.Rotations.Correct.{round-Decides}

shift_sum :
    {a b : ℕ} (g : Globals) → a ≡ b → ◌≡◌ {A = Outcome (ℕ × Globals)} (done (a, g)) (done (b, g))
shift_sum g e = ap (λ s. done (s, g)) e

module _ (fm : FloatMath) (law : IsFloatMath fm) where
  decide :
      (i : ℕ) (g : Globals)
      → 0 < i
      → i < 10 ^ 6
      → Ready 7 g
      → Decides (Circular i) 7 g (rotation_round fm 6 i g)
  decide i g pos lt ready =
      let (w, le, h) = digits_of 5 i pos lt in round-Decides fm law w i le h 6 g (omega arith) ready

  pub count_rotations_lem :
      (n i sum : ℕ) (g : Globals)
      → 0 < i
      → i + n ≤ 10 ^ 6
      → sum + n < 2 ^ 64
      → Ready (n * 7) g
      → (xs : List ℕ) × (g' : Globals) × (count_rotations fm n 6 i sum g
          ≡ done (sum + length xs, g'))
        × Selected Circular i n xs
  unfolding count_rotations
  count_rotations_lem zero i sum g pos le fits ready = ([], g, shift_sum g (omega arith), nothing i)
  count_rotations_lem (suc n) i sum g pos le fits ready =
      let d = decide i g pos (omega arith) (Ready-less (suc n * 7) 7 g (omega arith) ready) in
      let after : Ready (n * 7) (later g d.calls) =
        Ready-later 7 (n * 7) d.calls g d.few
          (Ready-less (suc n * 7) (7 + n * 7) g (omega arith) ready) in
      elim (Bool-cases d.answer) [
        | inl t ↦
            let raised : u64 (sum + 1) ≡ sum + 1 = omega arith in
            let stepped : count_rotations fm (suc n) 6 i sum g
                ≡ count_rotations fm n 6 (i + 1) (sum + 1) (later g d.calls) =
              rw (d.returns, t, raised) refl in
            let (xs, g', e, picked) =
              count_rotations_lem n (i + 1) (sum + 1) (later g d.calls) (omega arith) (omega arith)
                (omega arith) after in
            (i ∷ xs, g', stepped ∙ (e ∙ shift_sum g' (omega arith)), hit i n xs (d.holds t) picked)
        | inr f ↦
            let (xs, g', e, picked) =
              count_rotations_lem n (i + 1) sum (later g d.calls) (omega arith) (omega arith)
                (omega arith) after in
            (xs, g', rw (d.returns, f) e, miss i n xs (d.fails f) picked)
      ]

  -- For a table of `10 ^ 6` numbers or more (at most `2 ^ 62`, and a multiple of 16) and a limit of at
  -- most `10 ^ 6`, the program comes to its end, each search within 6 rounds, and prints the length
  -- of the list of the circular primes from 2 to the limit.
  pub rotations_main_lem :
      (inv_idx : List ℕ) (inv_idx_limit limit : ℕ)
      → 10 ^ 6 ≤ inv_idx_limit
      → inv_idx_limit ≤ 2 ^ 62
      → inv_idx_limit % 16 ≡ 0
      → length inv_idx ≡ bits inv_idx_limit
      → limit ≤ 10 ^ 6
      → (xs : List ℕ) × (g : Globals) × (rotations_main fm 6 inv_idx inv_idx_limit limit
          ≡ done (length xs, g))
        × Selected Circular 2 (limit - 2) xs
  unfolding rotations_main
  rotations_main_lem inv_idx top limit large small whole room le =
      let (q, sieved, table) = sieve2_lem inv_idx top small (omega arith) whole room in
      let g : Globals = record {
        inv_idx = q;
        inv_idx_limit = top;
        allall = 0;
        all = 0;
        misses = 0;
      } in
      let ready : Ready ((limit - 2) * 7) g = record {
        table = table;
        covers = large;
        room = omega arith;
      } in
      let (xs, g', e, picked) =
        count_rotations_lem (limit - 2) 2 0 g (omega arith) (omega arith) (omega arith) ready in
      (xs, g', rw sieved (e ∙ shift_sum g' (omega arith)), picked)
