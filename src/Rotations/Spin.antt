-- ===== src/Rotations/Spin.antt =====
-- Rotating the digits of a number of `w + 1` digits.
use xtest.Decimal.{ten_pow, to_suc}
use xtest.Base.{
  ℕ, zero, suc, ◌+◌, ◌-◌, ◌*◌, ◌/◌, ◌%◌, ◌^◌, ◌≤◌, ◌<◌, ◌≡◌, arith, refl, ap, ◌∙◌, sym,
}

-- The last digit goes to the front.
abbrev pub turn : ℕ → ℕ → ℕ
turn w y = y / 10 + 10 ^ w * (y % 10)

abbrev pub spin : ℕ → ℕ → ℕ → ℕ
spin w zero x = x
spin w (suc k) x = turn w (spin w k x)

-- `x` cut in two, and the halves swapped.
record Cut (w k x y : ℕ) : Type 0 where
  a : ℕ
  c : ℕ
  q : ℕ
  r : ℕ
  product : a * c ≡ 10 * 10 ^ w
  whole : x ≡ a * q + r
  low : r < a
  swapped : y ≡ q + r * c
  length_a : a ≡ 10 ^ k
  length_c : c ≡ 10 ^ (w + 1 - k)

shorter : (w k : ℕ) → k < w + 1 → 10 ^ (w + 1 - k) ≡ 10 * 10 ^ (w - k)
shorter w k lt = let e : w + 1 - k ≡ suc (w - k) = omega arith in rw e (ten_pow (w - k))

-- Of the first half's last digit.
module _ (a d q r : ℕ) where
  whole_step : a * q + r ≡ 10 * a * (q / 10) + (r + a * (q % 10))
  whole_step =
      let e : a * q ≡ a * (10 * (q / 10) + q % 10) = ap (λ t. a * t) (omega arith) in grind arith

  low_step : r < a → r + a * (q % 10) < 10 * a
  low_step lt = let m : a * (q % 10) ≤ a * 9 = grind arith in omega arith

  turn_step :
      (w y : ℕ) → 10 ^ w ≡ a * d → y ≡ q + r * (10 * d) → turn w y ≡ q / 10 + (r + a * (q % 10)) * d
  turn_step w y wide e =
      let t : r * (10 * d) ≡ 10 * (r * d) = grind arith in
      let front : y / 10 ≡ q / 10 + r * d = omega arith in
      let last : y % 10 ≡ q % 10 = omega arith in rw (front, last, wide) (grind arith)

Cut-step : (w k x y : ℕ) → k < w + 1 → Cut w k x y → Cut w (suc k) x (turn w y)
Cut-step w k x y lt u =
    let d = 10 ^ (w - k) in
    let ten : u.c ≡ 10 * d = u.length_c ∙ shorter w k lt in
    let wide : 10 ^ w ≡ u.a * d =
      let p : u.a * (10 * d) ≡ 10 * 10 ^ w = rw (← ten) u.product in grind arith in
    record {
      a = 10 * u.a;
      c = d;
      q = u.q / 10;
      r = u.r + u.a * (u.q % 10);
      product = rw wide (grind arith);
      whole = u.whole ∙ whole_step u.a d u.q u.r;
      low = low_step u.a d u.q u.r u.low;
      swapped = turn_step u.a d u.q u.r w y wide (u.swapped ∙ ap (λ t. u.q + u.r * t) ten);
      length_a = rw u.length_a (sym (ten_pow k));
      length_c = ap (λ n. 10 ^ n) (omega arith);
    }

Cut-spin : (w k x : ℕ) → k ≤ w + 1 → Cut w k x (spin w k x)
Cut-spin w zero x le = record {
  a = 1;
  c = 10 ^ (w + 1);
  q = x;
  r = 0;
  product = omega (arith, to_suc w);
  whole = omega arith;
  low = omega arith;
  swapped = omega arith;
  length_a = refl;
  length_c = ap (λ n. 10 ^ n) (omega arith);
}
Cut-spin w (suc k) x le = Cut-step w k x (spin w k x) (omega arith) (Cut-spin w k x (omega arith))

nothing_above : (a q r : ℕ) → a * q + r < a → q ≡ 0
nothing_above a zero r lt = refl
nothing_above a (suc q) r lt = let e : a * suc q ≡ a * q + a = grind arith in absurd (omega arith)

-- After as many turns as there are digits, the number is back.
pub spin_around : (w x : ℕ) → x < 10 ^ (w + 1) → spin w (suc w) x ≡ x
spin_around w x lt =
    let u = Cut-spin w (suc w) x (omega arith) in
    let none_left : w + 1 - suc w ≡ 0 = omega arith in
    let one : u.c ≡ 1 = rw (u.length_c, none_left) refl in
    let none : u.q ≡ 0 =
      nothing_above u.a u.q u.r (omega (arith, u.length_a, u.whole, ten_pow w, to_suc w)) in
    let back : x ≡ u.r = u.whole ∙ (rw none (omega arith)) in
    u.swapped ∙ rw (none, one) (omega arith)

-- A digit other than 0 that goes to the front keeps the number of digits.
pub turn-bounds :
    (w y : ℕ)
    → 10 ^ w ≤ y
    → y < 10 ^ (w + 1)
    → 1 ≤ y % 10
    → (10 ^ w ≤ turn w y) × (turn w y < 10 ^ (w + 1))
turn-bounds w y lo hi d =
    let ten = to_suc w in
    let m = y % 10 in
    let front : 10 ^ w * 1 ≤ 10 ^ w * m = grind arith in
    let back : 10 ^ w * m ≤ 10 ^ w * 9 = grind arith in (omega arith, omega arith)
