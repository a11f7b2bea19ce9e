-- ===== src/TwoSided/Correct/Counting.antt =====
-- The loop of `main`, and `main` as a whole.
use xtest.Base.{
  ℕ, zero, suc, ◌+◌, ◌-◌, ◌%◌, ◌*◌, ◌^◌, ◌≤◌, ◌<◌, ◌≡◌, arith, refl, ◌∙◌, inl, inr, Outcome, done,
  List, [], ◌∷◌, u64, Bool-cases, length,
}
use xtest.Prime.Bitmap.{bits}
use xtest.Prime.Wheel.Correct.{sieve2_lem}
use xtest.Prime.Trial.{Globals}
use xtest.Prime.Search.{later, Ready, Ready-less, Ready-later, Selected, nothing, hit, miss}
use xtest.TwoSided.{Totals, count_truncatable, truncation_main}
use xtest.TwoSided.Cuts.{TwoSidedPrime}
use xtest.TwoSided.Correct.{IsLeadingPlace, round-Decides}

abbrev pub total : List ℕ → ℕ
total [] = 0
total (x ∷ xs) = x + total xs

totals_path :
    {a b c d : ℕ} (g : Globals)
    → a ≡ c
    → b ≡ d
    → ◌≡◌ {A = Outcome (Totals × Globals)}
        (done (record { sum = a; sum2 = b }, g))
        (done (record { sum = c; sum2 = d }, g))
totals_path g p q = rw (p, q) refl

module _ (leading_place : ℕ → ℕ) (law : IsLeadingPlace leading_place) where
  -- Neither total wraps around: `n` numbers below `10 ^ 6` are to come.
  count_truncatable_lem :
      (n i : ℕ) (t : Totals) (g : Globals)
      → 10 ≤ i
      → i + n ≤ 10 ^ 6
      → t.sum + n < 2 ^ 64
      → t.sum2 + n * 10 ^ 6 < 2 ^ 64
      → Ready (n * 11) g
      → (xs : List ℕ) × (g' : Globals) × (count_truncatable leading_place n 5 i t g
          ≡ done (record { sum = t.sum + length xs; sum2 = t.sum2 + total xs }, g'))
        × Selected TwoSidedPrime i n xs
  unfolding count_truncatable
  count_truncatable_lem zero i t g low le fits fits2 ready =
      ([], g, totals_path g (omega arith) (omega arith), nothing i)
  count_truncatable_lem (suc n) i t g low le fits fits2 ready =
      let d =
        round-Decides leading_place law i g low (omega arith)
          (Ready-less (suc n * 11) 11 g (omega arith) ready) in
      let after : Ready (n * 11) (later g d.calls) =
        Ready-later 11 (n * 11) d.calls g d.few
          (Ready-less (suc n * 11) (11 + n * 11) g (omega arith) ready) in
      elim (Bool-cases d.answer) [
        | inl t1 ↦
            let raised : u64 (t.sum + 1) ≡ t.sum + 1 = omega arith in
            let raised2 : u64 (t.sum2 + i) ≡ t.sum2 + i = omega arith in
            let t' : Totals = record { sum = t.sum + 1; sum2 = t.sum2 + i } in
            let stepped : count_truncatable leading_place (suc n) 5 i t g
                ≡ count_truncatable leading_place n 5 (i + 1) t' (later g d.calls) =
              rw (d.returns, t1, raised, raised2) refl in
            let (xs, g', e, picked) =
              count_truncatable_lem n (i + 1) t' (later g d.calls) (omega arith) (omega arith)
                (omega arith) (omega arith) after in
            (
              i ∷ xs,
              g',
              stepped ∙ e ∙ totals_path g' (omega arith) (omega arith),
              hit i n xs (d.holds t1) picked,
            )
        | inr f1 ↦
            let (xs, g', e, picked) =
              count_truncatable_lem n (i + 1) t (later g d.calls) (omega arith) (omega arith)
                (omega arith) (omega arith) after in
            (xs, g', rw (d.returns, f1) e, miss i n xs (d.fails f1) picked)
      ]

  -- For a table of `10 ^ 6` numbers or more (at most `2 ^ 62`, and a multiple of 16) and a limit of at
  -- most `10 ^ 6`, the program comes to its end, each search within 5 rounds, and prints the length
  -- and the sum of the list of the primes from 11 to the limit that stay prime when digits are taken
  -- off the end, and when they are taken off the front.
  pub truncation_main_lem :
      (inv_idx : List ℕ) (inv_idx_limit limit : ℕ)
      → 10 ^ 6 ≤ inv_idx_limit
      → inv_idx_limit ≤ 2 ^ 62
      → inv_idx_limit % 16 ≡ 0
      → length inv_idx ≡ bits inv_idx_limit
      → limit ≤ 10 ^ 6
      → (xs : List ℕ) × (g : Globals) × (truncation_main leading_place 5 inv_idx inv_idx_limit limit
          ≡ done (record { sum = length xs; sum2 = total xs }, g))
        × Selected TwoSidedPrime 11 (limit - 11) xs
  unfolding truncation_main
  truncation_main_lem inv_idx top limit large small whole room le =
      let (q, sieved, table) = sieve2_lem inv_idx top small (omega arith) whole room in
      let g : Globals = record {
        inv_idx = q;
        inv_idx_limit = top;
        allall = 0;
        all = 0;
        misses = 0;
      } in
      let ready : Ready ((limit - 11) * 11) g = record {
        table = table;
        covers = large;
        room = omega arith;
      } in
      let none : Totals = record { sum = 0; sum2 = 0 } in
      let (xs, g', e, picked) =
        count_truncatable_lem (limit - 11) 11 none g (omega arith) (omega arith) (omega arith)
          (omega arith) ready in
      (xs, g', rw sieved (e ∙ totals_path g' (omega arith) (omega arith)), picked)
