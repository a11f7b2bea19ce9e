-- ===== src/Truncatable/Correct.antt =====
-- The search with its memo.
use xtest.Base.{
  ℕ, zero, suc, ◌/◌, ◌%◌, ◌^◌, ◌<◌, ◌≡◌, ◌==◌, if◌then◌else◌, done, arith, refl, ap, ◌∙◌, sym,
  subst, Bool, true, false, Bool-cases, inl, inr, ◌↔◌, List, [], ◌∷◌, length, length-set, get_or,
  get_or-set, replicate,
}
use native.Mathlib.Nat.{zero-div, pow-succ'}
use xtest.Truncatable.{
  is_harshad, truncate_loop, memo_n, Memo, zeroed, madd2, mfind2, is_right_truncatable,
}
use xtest.Truncatable.Digits.{digit_sum, prefix-suc, sum_digs_lem, digit_sum-positive}

-- 0, or a multiple of its digit sum.
abbrev pub Fits : ℕ → Type 0
Fits n = 0 < n → n % digit_sum n ≡ 0

-- The number and what is left of it after each cut at the right is a multiple of its digit sum.
abbrev pub IsTruncatable : ℕ → Type 0
IsTruncatable n = (k : ℕ) → Fits (n / 10 ^ k)

is_harshad_lem : (n : ℕ) → n < 2 ^ 64 → 0 < n → is_harshad n ≡ done (n % digit_sum n == 0)
unfolding is_harshad
is_harshad_lem n h pos = rw (sum_digs_lem n h) (ground (arith, digit_sum-positive n h pos))

zero-IsTruncatable : IsTruncatable 0
zero-IsTruncatable k pos = absurd (omega (arith, zero-div (10 ^ k)))

IsTruncatable-cut : (n : ℕ) → IsTruncatable n → IsTruncatable (n / 10)
IsTruncatable-cut n t k = subst Fits (prefix-suc n k) (t (suc k))

whole : (n : ℕ) → n ≡ n / 10 ^ 0
whole n = omega arith

IsTruncatable-grow : (n : ℕ) → Fits n → IsTruncatable (n / 10) → IsTruncatable n
IsTruncatable-grow n one t zero = subst Fits (whole n) one
IsTruncatable-grow n one t (suc k) = subst Fits (sym (prefix-suc n k)) (t k)

loop_end : (fuel : ℕ) → truncate_loop (suc fuel) 0 ≡ done true
unfolding truncate_loop
loop_end fuel = refl

loop_step :
    (fuel n : ℕ) (b : Bool)
    → 0 < n
    → is_harshad n ≡ done b
    → truncate_loop (suc fuel) n ≡ (if b then truncate_loop fuel (n / 10) else done false)
unfolding truncate_loop
loop_step fuel n b pos e = rw e (ground arith)

pub truncate_loop_lem :
    (fuel n : ℕ)
    → n < 10 ^ fuel
    → n < 2 ^ 64
    → (b : Bool) × (truncate_loop (suc fuel) n ≡ done b) × ((b ≡ true) ↔ IsTruncatable n)
truncate_loop_lem fuel zero h small = (true, loop_end fuel, (λ e. zero-IsTruncatable, λ t. refl))
truncate_loop_lem zero (suc n) h small = absurd (omega arith)
truncate_loop_lem (suc fuel) (suc n) h small = elim (Bool-cases (suc n % digit_sum (suc n) == 0)) [
  | inl fits ↦
      let (b, e, (to, from)) =
        truncate_loop_lem fuel (suc n / 10) (omega (arith, pow-succ' 10 fuel)) (omega arith) in
      (
        b,
        loop_step (suc fuel) (suc n) true (omega arith)
              (is_harshad_lem (suc n) small (omega arith) ∙ ap done fits)
            ∙ e,
        (
          λ e. IsTruncatable-grow (suc n) (λ _. ground arith) (to e),
          λ t. from (IsTruncatable-cut (suc n) t),
        ),
      )
  | inr off ↦ (
    false,
    loop_step (suc fuel) (suc n) false (omega arith)
        (is_harshad_lem (suc n) small (omega arith) ∙ ap done off),
    (
      λ e. absurd (ground arith),
      λ t. absurd (ground (arith, subst Fits (sym (whole (suc n))) (t 0) (omega arith))),
    ),
  )
]

-- All numbers of the memo are truncatable.
pub record IsValid (m : Memo) : Type 0 where
  pub full : length m.memo2 ≡ memo_n
  pub sound : (i : ℕ) → IsTruncatable (get_or m.memo2 i 0)

mfind2-get_or : (n : ℕ) (xs : List ℕ) → mfind2 n xs ≡ true → (i : ℕ) × (get_or xs i 0 ≡ n)
unfolding mfind2
mfind2-get_or n [] h = absurd (ground arith)
mfind2-get_or n (x ∷ xs) h = elim (Bool-cases (x == n)) [
  | inl hit ↦ (0, ground arith)
  | inr miss ↦ let (i, e) = mfind2-get_or n xs (ground arith) in (suc i, e)
]

either :
    (c : Bool) (x y : ℕ) → IsTruncatable x → IsTruncatable y → IsTruncatable (if c then x else y)
either true x y p q = p
either false x y p q = q

madd2-IsValid : (n : ℕ) (m : Memo) → IsTruncatable n → IsValid m → IsValid (madd2 n m)
unfolding madd2
madd2-IsValid n m t v = record {
  full = length-set m.memo2 (m.memo2_i % memo_n) n ∙ v.full;
  sound = λ i.
      subst IsTruncatable
        (sym (get_or-set m.memo2 (m.memo2_i % memo_n) i n 0 (omega (arith, v.full))))
        (either (m.memo2_i % memo_n == i) n (get_or m.memo2 i 0) t (v.sound i));
}

abbrev nil : ℕ
nil = 0

all_zero : (n i : ℕ) → get_or (replicate n (nil)) i 0 ≡ 0
all_zero zero i = refl
all_zero (suc n) zero = refl
all_zero (suc n) (suc i) = all_zero n i

pub zeroed-IsValid : IsValid zeroed
zeroed-IsValid = record {
  full = refl;
  sound = λ i. subst IsTruncatable (sym (all_zero memo_n i)) zero-IsTruncatable;
}

search_found :
    (m : Memo) (n : ℕ) → mfind2 n m.memo2 ≡ true → is_right_truncatable m n ≡ done (true, m)
unfolding is_right_truncatable
search_found m n hit = rw hit refl

search_done :
    (m : Memo) (n : ℕ) (b : Bool)
    → mfind2 n m.memo2 ≡ false
    → truncate_loop 21 n ≡ done b
    → is_right_truncatable m n ≡ done (b, if b then madd2 n m else m)
unfolding is_right_truncatable
search_done m n b miss e = rw (miss, e) refl

kept :
    (n : ℕ) (m : Memo) (b : Bool)
    → (b ≡ true → IsTruncatable n)
    → IsValid m
    → IsValid (if b then madd2 n m else m)
kept n m true t v = madd2-IsValid n m (t refl) v
kept n m false t v = v

-- For every 64-bit number and every memo that holds only truncatable numbers (zeros at first),
-- `is_right_truncatable` ends with no division by zero, its answer is 1 exactly when the number and
-- each of its nonzero prefixes is a multiple of its digit sum, whatever the memo holds, and the new
-- memo again holds only truncatable numbers.
pub is_right_truncatable_lem :
    (m : Memo) (n : ℕ)
    → n < 2 ^ 64
    → IsValid m
    → (b : Bool) × (after : Memo) × (is_right_truncatable m n ≡ done (b, after))
      × ((b ≡ true) ↔ IsTruncatable n)
      × IsValid after
is_right_truncatable_lem m n h v = elim (Bool-cases (mfind2 n m.memo2)) [
  | inl hit ↦
      let (i, e) = mfind2-get_or n m.memo2 hit in
      (true, m, search_found m n hit, (λ _. subst IsTruncatable e (v.sound i), λ _. refl), v)
  | inr miss ↦
      let (b, e, (to, from)) = truncate_loop_lem 20 n (omega arith) h in
      (b, _, search_done m n b miss e, (to, from), kept n m b to v)
]
