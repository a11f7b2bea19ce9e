-- ===== src/Prime/MillerRabin/Correct.antt =====
-- The test decides whether `n` is a strong probable prime to base `a`.
use native.Mathlib.Nat.{mod-lt, two-pow-succ, one-le-pow}
use xtest.Base.{
  ℕ, zero, suc, ◌+◌, ◌-◌, ◌*◌, ◌/◌, ◌%◌, ◌^◌, ◌≤◌, ◌<◌, ◌≡◌, refl, ap, sym, ◌∙◌, subst, ◌⊎◌, inl,
  inr, Bool, true, ◌||◌, Outcome, done, ◌==◌, if◌then◌else◌, Bool-cases, ℕ_discrete, u64, arith,
  ◌↔◌,
}
use xtest.Base.Arith.{mul-mod_both, pow-add}
use xtest.Prime.Modexp.{modexp, modexp_lem}
use xtest.Prime.MillerRabin.{Split, split_loop, square_loop, miller_rabin_test}

-- What the first loop leaves: the odd part of `m` and the number of halvings.
record IsSplit (m s0 : ℕ) (run : Outcome Split) : Type 0 where
  out : Split
  k : ℕ
  returns : run ≡ done out
  counted : out.s ≡ s0 + k
  product : m ≡ 2 ^ k * out.d
  odd : out.d % 2 ≡ 1

split_loop_even :
    (fuel m s0 : ℕ) → m % 2 ≡ 0 → split_loop (suc fuel) m s0 ≡ split_loop fuel (m / 2) (s0 + 1)
unfolding split_loop
split_loop_even fuel m s0 h = ground arith

twice_product : (m k d : ℕ) → m % 2 ≡ 0 → m / 2 ≡ 2 ^ k * d → m ≡ 2 ^ suc k * d
twice_product m k d even e = omega (arith, ap (λ (t : ℕ). t * d) (two-pow-succ k))

split_loop_lem : (fuel m s0 : ℕ) → 0 < m → m < 2 ^ fuel → IsSplit m s0 (split_loop (suc fuel) m s0)
split_loop_lem zero m s0 pos small = absurd (omega arith)
split_loop_lem (suc fuel) m s0 pos small = elim (Bool-cases (m % 2 == 0)) [
  | inl even ↦
      let r =
        split_loop_lem fuel (m / 2) (s0 + 1) (ground arith) (omega (arith, two-pow-succ fuel)) in
      record {
        out = r.out;
        k = suc r.k;
        returns = split_loop_even (suc fuel) m s0 (ground arith) ∙ r.returns;
        counted = omega (arith, r.counted);
        product = twice_product m r.k r.out.d (ground arith) r.product;
        odd = r.odd;
      }
  | inr odd ↦ record {
    out = record { d = m; s = s0 };
    k = 0;
    returns = unfold split_loop in ground arith;
    counted = omega arith;
    product = omega arith;
    odd = ground arith;
  }
]

-- `n` divides `a ^ d - 1`, or `a ^ (2 ^ r * d) + 1` for some `r` below `s`.
abbrev pub HitsMinusOne : ℕ → ℕ → ℕ → ℕ → Type 0
HitsMinusOne n a d s = (r : ℕ) × (r < s) × (a ^ (2 ^ r * d) % n ≡ n - 1)

abbrev pub IsStrongProbablePrime : ℕ → ℕ → ℕ → ℕ → Type 0
IsStrongProbablePrime n a d s = (a ^ d % n ≡ 1) ⊎ HitsMinusOne n a d s

pow-square_mod :
    (n a d r : ℕ) → (a ^ (2 ^ r * d) % n) * (a ^ (2 ^ r * d) % n) % n ≡ a ^ (2 ^ suc r * d) % n
pow-square_mod n a d r =
    mul-mod_both (a ^ (2 ^ r * d)) (a ^ (2 ^ r * d)) n
    ∙ ap (λ (t : ℕ). t % n)
        (sym (pow-add a (2 ^ r * d) (2 ^ r * d))
          ∙ ap (λ (t : ℕ). a ^ t) (omega (arith, ap (λ (t : ℕ). t * d) (two-pow-succ r))))

-- The loop that starts after `r` squarings looks at `r + 1`, ..., `r + rounds`.
abbrev Later : ℕ → ℕ → ℕ → ℕ → ℕ → Type 0
Later n a d r rounds = (q : ℕ) × (r < q) × (q ≤ r + rounds) × (a ^ (2 ^ q * d) % n ≡ n - 1)

square_loop_step :
    (rounds x n : ℕ)
    → 0 < n
    → n ≤ 2 ^ 63
    → x < n
    → square_loop (suc rounds) x n
      ≡ (if x * x % n == n - 1 then true else square_loop rounds (x * x % n) n)
unfolding square_loop
square_loop_step rounds x n pos small lt =
    let fits : x * x < 2 ^ 126 = grind arith in
    let here : u64 (x * x % 2 ^ 128 % n) ≡ x * x % n =
      let whole : x * x % 2 ^ 128 ≡ x * x = omega arith in
      rw whole (let r = mod-lt (x * x) pos in omega arith) in
    let pred : u64 (n + 2 ^ 64 - 1) ≡ n - 1 = omega arith in rw (here, pred) (ground arith)

square_loop_lem :
    (n a d : ℕ)
    → 0 < n
    → n ≤ 2 ^ 63
    → (rounds r : ℕ) → (square_loop rounds (a ^ (2 ^ r * d) % n) n ≡ true) ↔ Later n a d r rounds
square_loop_lem n a d pos small zero r =
    (λ h. absurd (unfold square_loop in cc), λ (q, lt, le, e). absurd (omega arith))
square_loop_lem n a d pos small (suc rounds) r =
    let ih = square_loop_lem n a d pos small rounds (suc r) in
    let step =
      square_loop_step rounds (a ^ (2 ^ r * d) % n) n pos small (mod-lt (a ^ (2 ^ r * d)) pos) in
    let next = pow-square_mod n a d r in
    elim (Bool-cases (a ^ (2 ^ suc r * d) % n == n - 1)) [
      | inl hit ↦
          (λ h. (suc r, omega arith, omega arith, ground arith), λ h. rw (step, next, hit) refl)
      | inr miss ↦ (
        λ h. let (q, lt, le, e) = ih.0 (ground arith) in (q, omega arith, omega arith, e),
        λ (q, lt, le, e). elim (ℕ_discrete q (suc r)) [
          | yes same ↦
              let e' : a ^ (2 ^ suc r * d) % n ≡ n - 1 =
                ap (λ (t : ℕ). a ^ (2 ^ t * d) % n) (sym same) ∙ e in
              absurd (ground arith)
          | no other ↦ rw (step, next, miss) (ih.1 (q, omega arith, omega arith, e))
        ],
      )
    ]

abbrev answer_of : ℕ → ℕ → ℕ → ℕ → Bool
answer_of n a d s =
    let x = a ^ d % n in if x == 1 || x == n - 1 then true else square_loop (s - 1) x n

once : (a d : ℕ) → a ^ (2 ^ 0 * d) ≡ a ^ d
once a d = ap (λ (t : ℕ). a ^ t) (omega arith)

answers :
    (n a : ℕ)
    → 1 < n
    → n ≤ 2 ^ 63
    → (w : Split) → split_loop 65 (n - 1) 0 ≡ done w
    → modexp a w.d n ≡ done (a ^ w.d % n)
    → miller_rabin_test n a ≡ done (answer_of n a w.d w.s)
unfolding miller_rabin_test
answers n a big small w split power =
    let pred : u64 (n + 2 ^ 64 - 1) ≡ n - 1 = omega arith in rw (pred, split, power) refl

early_hit :
    (n a d s : ℕ)
    → 0 < s
    → (a ^ d % n == 1 || a ^ d % n == n - 1) ≡ true
    → IsStrongProbablePrime n a d s
early_hit n a d s halved early = elim (Bool-cases (a ^ d % n == 1)) [
  | inl one ↦ inl (ground arith)
  | inr other ↦ inr (0, halved, ap (λ (t : ℕ). t % n) (once a d) ∙ ground arith)
]

answer_iff :
    (n a d s : ℕ)
    → 0 < n
    → n ≤ 2 ^ 63
    → 0 < s
    → (answer_of n a d s ≡ true) ↔ IsStrongProbablePrime n a d s
answer_iff n a d s pos small halved =
    let later = square_loop_lem n a d pos small (s - 1) 0 in
    let same : a ^ (2 ^ 0 * d) % n ≡ a ^ d % n = ap (λ (t : ℕ). t % n) (once a d) in
    elim (Bool-cases (a ^ d % n == 1 || a ^ d % n == n - 1)) [
      | inl early ↦ (λ h. early_hit n a d s halved early, λ h. rw early refl)
      | inr on ↦ (
        λ h.
            let h' : square_loop (s - 1) (a ^ d % n) n ≡ true = ground arith in
            let (q, lt, le, e) =
              later.0 (subst (λ x. square_loop (s - 1) x n ≡ true) (sym same) h') in
            inr (q, omega arith, e),
        λ h. elim h [
          | inl one ↦ absurd (ground arith)
          | inr (zero, lt, e) ↦ absurd (ground arith)
          | inr (suc r, lt, e) ↦
              let h' =
                subst (λ x. square_loop (s - 1) x n ≡ true) same
                  (later.1 (suc r, omega arith, omega arith, e)) in
              ground arith
        ],
      )
    ]

halved : (k d m : ℕ) → m ≡ 2 ^ k * d → m % 2 ≡ 0 → d % 2 ≡ 1 → 0 < k
halved zero d m e even odd = absurd (omega arith)
halved (suc k) d m e even odd = omega arith

odd_part-le : (k d m : ℕ) → m ≡ 2 ^ k * d → d ≤ m
odd_part-le k d m e =
    let pos : 1 ≤ 2 ^ k = one-le-pow k 2 (omega arith) in
    let le : d ≤ 2 ^ k * d = grind arith in omega arith

conclude :
    (n a : ℕ)
    → n % 2 ≡ 1
    → 1 < n
    → n ≤ 2 ^ 63
    → IsSplit (n - 1) 0 (split_loop 65 (n - 1) 0)
    → (d s : ℕ) × (n - 1 ≡ 2 ^ s * d)
      × (d % 2 ≡ 1)
      × (answer : Bool) × (miller_rabin_test n a ≡ done answer)
      × ((answer ≡ true) ↔ IsStrongProbablePrime n a d s)
conclude n a odd big small w =
    let d = w.out.d in
    let run : modexp a d n ≡ done (a ^ d % n) =
      modexp_lem a d n (omega arith) small (omega (arith, odd_part-le w.k d (n - 1) w.product)) in
    let s : 0 < w.k = halved w.k d (n - 1) w.product (omega arith) w.odd in
    (
      d,
      w.k,
      w.product,
      w.odd,
      answer_of n a d w.k,
      answers n a big small w.out w.returns run
          ∙ ap (λ (t : ℕ). done (answer_of n a d t)) (omega (arith, w.counted)),
      answer_iff n a d w.k (omega arith) small s,
    )

-- For an odd `n` from 3 to 2 ^ 63 the test returns: with `n - 1 = 2 ^ s * d` and `d` odd, it
-- answers 1 exactly if `n` is a strong probable prime to base `a`.
pub miller_rabin_test_lem :
    (n a : ℕ)
    → n % 2 ≡ 1
    → 1 < n
    → n ≤ 2 ^ 63
    → (d s : ℕ) × (n - 1 ≡ 2 ^ s * d)
      × (d % 2 ≡ 1)
      × (answer : Bool) × (miller_rabin_test n a ≡ done answer)
      × ((answer ≡ true) ↔ IsStrongProbablePrime n a d s)
miller_rabin_test_lem n a odd big small =
    conclude n a odd big small (split_loop_lem 64 (n - 1) 0 (omega arith) (omega arith))
