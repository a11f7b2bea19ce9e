-- ===== src/Gcd/Sequence.antt =====
-- The sequence, plain and memoised.
use xtest.Base.{
  ℕ, zero, suc, ◌+◌, ◌*◌, ◌-◌, ◌^◌, ◌≤◌, ◌<◌, ◌≡◌, ◌⊎◌, inl, inr, true, false, ◌==◌, done, u64,
  arith, refl, ap, ◌∙◌, Bool-cases,
}
use native.Mathlib.Nat.{le_of_dvd, mul-le-mul_right}
use xtest.Gcd.{gcd, gcdfast, g, Memo, gfast}
use xtest.Gcd.Correct.{gcd-gcdfast}

-- The sequence from its fourth place on, with the slow gcd and no wrap.
pub rowland : ℕ → ℕ
rowland zero = 13
rowland (suc k) = rowland k + gcd (k + 5) (rowland k)

bounds : (k : ℕ) → (0 < rowland k) × (rowland k ≤ 13 + k * (k + 5))
unfolding rowland
bounds zero = (omega arith, omega arith)
bounds (suc k) =
    let (lo, hi) = bounds k in
    let ((p, q, r), same) = gcd-gcdfast (k + 5) (rowland k) (omega arith) lo in
    let small : gcd (k + 5) (rowland k) ≤ k + 5 = le_of_dvd (omega arith) p in
    (omega arith, grind arith)

below : (k : ℕ) → k < 2 ^ 31 → k ≤ 2 ^ 31
below k h = omega arith

no_wrap : (k : ℕ) → k < 2 ^ 31 → rowland k < 2 ^ 64
no_wrap k h = omega (arith, (bounds k).1, mul-le-mul_right (k + 5) (below k h))

before : (k : ℕ) → k + 5 < 2 ^ 64 → u64 (k + 5 + 2 ^ 64 - 1) ≡ k + 4
before k h = omega arith

g_step :
    (fuel k a d : ℕ)
    → g fuel (k + 4) ≡ done a
    → gcdfast (k + 5) a ≡ done d
    → k + 5 < 2 ^ 64
    → a + d < 2 ^ 64
    → g (suc fuel) (k + 5) ≡ done (a + d)
unfolding g
g_step fuel k a d e q h small = rw (before k h, e, q) (ground arith)

gcdfast-rowland : (k : ℕ) → gcdfast (k + 5) (rowland k) ≡ done (gcd (k + 5) (rowland k))
gcdfast-rowland k = (gcd-gcdfast (k + 5) (rowland k) (omega arith) (bounds k).0).1

g_lem : (fuel k : ℕ) → k < fuel → k < 2 ^ 31 → g fuel (k + 4) ≡ done (rowland k)
unfolding rowland
g_lem zero k h small = absurd (omega arith)
g_lem (suc fuel) zero h small = unfold g in refl
g_lem (suc fuel) (suc k) h small =
    let e : suc k + 4 ≡ k + 5 = omega arith in
    rw e (
      g_step fuel k (rowland k) (gcd (k + 5) (rowland k)) (g_lem fuel k (omega arith) (omega arith))
        (gcdfast-rowland k) (omega arith) (no_wrap (suc k) small))

-- The memo is empty or holds a value of the sequence.
abbrev pub IsValid : Memo → Type 0
IsValid m = (m.gtabi ≡ 0) ⊎ ((j : ℕ) × (m.gtabi ≡ j + 4) × (m.gtab ≡ rowland j))

memo_hit : (m : Memo) (k : ℕ) → IsValid m → m.gtabi ≡ k + 4 → m.gtab ≡ rowland k
memo_hit m k (inl e) h = absurd (omega arith)
memo_hit m k (inr (j, e, v)) h = let same : j ≡ k = omega arith in v ∙ ap rowland same

gfast_step :
    (fuel k a d : ℕ) (m m1 m2 : Memo)
    → (m.gtabi == k + 5) ≡ false
    → gfast fuel m (k + 4) ≡ done (a, m1)
    → gfast fuel m1 (k + 4) ≡ done (a, m2)
    → gcdfast (k + 5) a ≡ done d
    → k + 5 < 2 ^ 64
    → a + d < 2 ^ 64
    → gfast (suc fuel) m (k + 5) ≡ done (a + d, record { gtabi = k + 5; gtab = a + d })
unfolding gfast
gfast_step fuel k a d m m1 m2 miss e1 e2 q h small = rw (before k h, e1, e2, q) (ground arith)

gfast_hit :
    (fuel k v : ℕ) (m : Memo)
    → (m.gtabi == k + 5) ≡ true
    → m.gtab ≡ v
    → gfast (suc fuel) m (k + 5) ≡ done (v, m)
unfolding gfast
gfast_hit fuel k v m hit e = ground (arith, e)

gfast-IsValid :
    (fuel k : ℕ) (m : Memo)
    → k < fuel
    → k < 2 ^ 31
    → IsValid m
    → (after : Memo) × (gfast fuel m (k + 4) ≡ done (rowland k, after)) × IsValid after
unfolding rowland
gfast-IsValid zero k m h small v = absurd (omega arith)
gfast-IsValid (suc fuel) zero m h small v = unfold gfast in (m, refl, v)
gfast-IsValid (suc fuel) (suc k) m h small v =
    let e : suc k + 4 ≡ k + 5 = omega arith in
    rw e (elim (Bool-cases (m.gtabi == k + 5)) [
      | inl hit ↦
          (m, gfast_hit fuel k (rowland (suc k)) m hit (memo_hit m (suc k) v (ground arith)), v)
      | inr miss ↦
          let (m1, e1, v1) = gfast-IsValid fuel k m (omega arith) (omega arith) v in
          let (m2, e2, v2) = gfast-IsValid fuel k m1 (omega arith) (omega arith) v1 in
          (
            _,
            gfast_step fuel k (rowland k) (gcd (k + 5) (rowland k)) m m1 m2 miss e1 e2
                (gcdfast-rowland k) (omega arith) (no_wrap (suc k) small),
            inr (suc k, omega arith, refl),
          )
    ])

-- For n from 4 up to 2^31, given more recursion depth than n - 4: `g` and, from a memo that is empty
-- or holds a value of the sequence, `gfast` return the value of the sequence at n, no addition
-- wraps, and the memo still holds a value of the sequence or nothing.
pub gfast-g :
    (fuel k : ℕ) (m : Memo)
    → k < fuel
    → k < 2 ^ 31
    → IsValid m
    → (after : Memo) × (g fuel (k + 4) ≡ done (rowland k))
      × (gfast fuel m (k + 4) ≡ done (rowland k, after))
      × IsValid after
gfast-g fuel k m h small v =
    let (after, e, w) = gfast-IsValid fuel k m h small v in (after, g_lem fuel k h small, e, w)
