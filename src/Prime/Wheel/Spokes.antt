-- ===== src/Prime/Wheel/Spokes.antt =====
-- The gaps lead from each number that 2, 3 and 5 do not divide to the next one.
use xtest.Base.{
  ℕ, ◌+◌, ◌%◌, ◌<◌, ◌≡◌, inl, inr, refl, arith, Bool, true, ◌&&◌, ◌||◌, ltb, ◌==◌, [], ◌∷◌, get_or,
  &&-eq-true, ltb→lt, ==_iff, Bool-cases, done,
}
use xtest.Base.Check.{passes_under, passes_under-lt}
use xtest.Prime.Bitmap.{load}
use xtest.Prime.Bitmap.Laws.{load-get_or}
use xtest.Prime.Wheel.{gaps}
use xtest.Prime.Wheel.Stages.{Out}

-- The remainder of `i` by 30 where `gapIdx` is `g`.
abbrev pub spoke : ℕ → ℕ
spoke g = get_or (7 ∷ 11 ∷ 13 ∷ 17 ∷ 19 ∷ 23 ∷ 29 ∷ 1 ∷ []) g 0

abbrev gap_at : ℕ → ℕ
gap_at g = get_or gaps g 0

-- From the spoke `g` the gap leads to the next one, and what lies between is out.
abbrev is_out : ℕ → Bool
is_out c = (c % 2 == 0) || ((c % 3 == 0) || (c % 5 == 0))

abbrev outs_between : ℕ → ℕ → Bool
outs_between g j = ltb (gap_at g) (j + 2) || is_out (spoke g + 1 + j)

abbrev spoke_row : ℕ → Bool
spoke_row g =
    ((spoke g + gap_at g) % 30 == spoke ((g + 1) % 8))
    && (ltb 1 (gap_at g) && (ltb (gap_at g) 7 && passes_under (outs_between g) 6))

spoke_table : passes_under spoke_row 8 ≡ true
unfolding passes_under
spoke_table = refl

is_out-Out : (c r : ℕ) → c % 30 ≡ r % 30 → is_out r ≡ true → Out c
is_out-Out c r e h = elim (Bool-cases (r % 2 == 0)) [
  | inl two ↦ inl (ground (arith, e, two))
  | inr odd ↦ elim (Bool-cases (r % 3 == 0)) [
    | inl three ↦ inr (inl (ground (arith, e, three)))
    | inr other ↦ inr (inr (ground (arith, e, h, odd, other)))
  ]
]

not_past : (gap j : ℕ) (b : Bool) → j + 1 < gap → (ltb gap (j + 2) || b) ≡ true → b ≡ true
not_past gap j b near h = ground (arith, near, h)

pub record Spoke (g i : ℕ) : Type 0 where
  pub gap : ℕ
  pub reads : load gaps g ≡ done gap
  pub low : 1 < gap
  pub high : gap < 7
  pub next : (i + gap) % 30 ≡ spoke ((g + 1) % 8)
  pub outs : (j : ℕ) → j + 1 < gap → Out (i + 1 + j)

pub spoke_lem : (g i : ℕ) → g < 8 → i % 30 ≡ spoke g → Spoke g i
spoke_lem g i lt e =
    let row = passes_under-lt spoke_row 8 g lt spoke_table in
    let (to_next, rest) =
      &&-eq-true ((spoke g + gap_at g) % 30 == spoke ((g + 1) % 8))
        (ltb 1 (gap_at g) && (ltb (gap_at g) 7 && passes_under (outs_between g) 6)) row in
    let (low, rest2) =
      &&-eq-true (ltb 1 (gap_at g)) (ltb (gap_at g) 7 && passes_under (outs_between g) 6) rest in
    let (high, between) = &&-eq-true (ltb (gap_at g) 7) (passes_under (outs_between g) 6) rest2 in
    let less = ltb→lt (gap_at g) 7 high in
    record {
      gap = gap_at g;
      reads = load-get_or gaps g (omega (arith, lt));
      low = ltb→lt 1 (gap_at g) low;
      high = less;
      next = omega (arith, e, (==_iff ((spoke g + gap_at g) % 30) (spoke ((g + 1) % 8))).0 to_next);
      outs = λ j near.
          let near_row = passes_under-lt (outs_between g) 6 j (omega (arith, near, less)) between in
          is_out-Out (i + 1 + j) (spoke g + 1 + j) (omega (arith, e))
            (not_past (gap_at g) j (is_out (spoke g + 1 + j)) near near_row);
    }

spokes_odd : passes_under (λ g. spoke g % 2 == 1) 8 ≡ true
unfolding passes_under
spokes_odd = refl

pub spoke_odd : (g i : ℕ) → g < 8 → i % 30 ≡ spoke g → i % 2 ≡ 1
spoke_odd g i lt e = omega (
  arith,
  e,
  (==_iff (spoke g % 2) 1).0 (passes_under-lt (λ g. spoke g % 2 == 1) 8 g lt spokes_odd),
)
