-- ===== src/Files/Zerorun/Block.antt =====
-- What `sum` tells of a block.
use xtest.Base.{
  ℕ, zero, suc, ◌+◌, ◌*◌, ◌≤◌, ◌<◌, ◌≡◌, List, [], ◌∷◌, length, Bool, true, ◌&&◌, ◌==◌, Bool-cases,
  inl, inr, get_or, arith, refl, ap, ◌↔◌, dec_lt, ℕ_discrete,
}
use xtest.Files.Zerorun.{word, sum_loop, sum}

abbrev pub Zeros : List ℕ → ℕ → ℕ → Type 0
Zeros buf from to = (j : ℕ) → from ≤ j → j < to → get_or buf j 0 ≡ 0

word-zero :
    (buf : List ℕ) (offset count : ℕ)
    → word buf offset count ≡ 0
    → Zeros buf offset (offset + count)
unfolding word
word-zero buf offset zero e j lo hi = absurd (omega arith)
word-zero buf offset (suc count) e j lo hi = elim (ℕ_discrete offset j) [
  | yes same ↦ omega (arith, ap (λ t. get_or buf t 0) same)
  | no more ↦ word-zero buf (offset + 1) count (omega arith) j (omega arith) (omega arith)
]

zero-word :
    (buf : List ℕ) (offset count : ℕ)
    → Zeros buf offset (offset + count)
    → word buf offset count ≡ 0
unfolding word
zero-word buf offset zero z = refl
zero-word buf offset (suc count) z = omega (
  arith,
  z offset (omega arith) (omega arith),
  zero-word buf (offset + 1) count (λ j lo hi. z j (omega arith) (omega arith)),
)

sum_loop-Zeros :
    (buf : List ℕ) (words i : ℕ) → (sum_loop buf words i ≡ 0) ↔ Zeros buf (8 * i) (8 * (i + words))
unfolding sum_loop
sum_loop-Zeros buf zero i = (λ e j lo hi. absurd (omega arith), λ z. refl)
sum_loop-Zeros buf (suc words) i = elim (ℕ_discrete (word buf (8 * i) 8) 0) [
  | yes empty ↦
      let (to, from) = sum_loop-Zeros buf words (i + 1) in
      (
        λ e j lo hi. elim (dec_lt j (8 * i + 8)) [
          | yes near ↦ word-zero buf (8 * i) 8 empty j lo near
          | no far ↦ to (ground arith) j (omega arith) (omega arith)
        ],
        λ z. let rest = from (λ j lo hi. z j (omega arith) (omega arith)) in ground arith,
      )
  | no full ↦ (
    λ e j lo hi. absurd (ground arith),
    λ z. absurd (full (zero-word buf (8 * i) 8 (λ j lo hi. z j lo (omega arith)))),
  )
]

-- `sum` on a block of 512 bytes is 0 exactly when every byte is 0.
pub sum_lem : (buf : List ℕ) → (sum buf 512 ≡ 0) ↔ Zeros buf 0 512
unfolding sum
sum_lem buf = sum_loop-Zeros buf 64 0

-- Every byte is 0.
abbrev pub all_zero : List ℕ → Bool
all_zero [] = true
all_zero (x ∷ rest) = x == 0 && all_zero rest

all_zero-get_or : (buf : List ℕ) → all_zero buf ≡ true → (j : ℕ) → get_or buf j 0 ≡ 0
all_zero-get_or [] h j = refl
all_zero-get_or (x ∷ rest) h zero = ground (arith, h)
all_zero-get_or (x ∷ rest) h (suc j) = all_zero-get_or rest (ground (arith, h)) j

get_or-all_zero :
    (buf : List ℕ) → ((j : ℕ) → j < length buf → get_or buf j 0 ≡ 0) → all_zero buf ≡ true
get_or-all_zero [] z = refl
get_or-all_zero (x ∷ rest) z =
    let first : x ≡ 0 = z 0 (omega arith) in
    let others = get_or-all_zero rest (λ j lt. z (suc j) (omega arith)) in
    ground (arith, first, others)

-- The test of `main` on a block of at most 512 bytes.
pub sum-all_zero : (buf : List ℕ) → length buf ≤ 512 → (sum buf 512 == 0) ≡ all_zero buf
sum-all_zero buf short =
    let (to, from) = sum_lem buf in
    elim (Bool-cases (all_zero buf)) [
      | inl zeros ↦ ground (arith, zeros, from (λ j lo hi. all_zero-get_or buf zeros j))
      | inr some_byte ↦ elim (ℕ_discrete (sum buf 512) 0) [
        | yes none ↦
            absurd
              (let z = get_or-all_zero buf (λ j lt. to none j (omega arith) (omega arith)) in cc)
        | no some_sum ↦ ground (arith, some_byte, some_sum)
      ]
    ]
