-- ===== src/Squares/Residues.antt =====
-- What the refusals refuse is no square.
use xtest.Base.{
  if◌then◌else◌, ℕ, ◌*◌, ◌%◌, ◌≡◌, ◌≢◌, Bool, true, false, not, ◌==◌, Outcome, done, arith, ap,
  refl,
}
use xtest.Base.Check.{passes_under, passes_under-lt}
use xtest.Base.Arith.{mul-mod_both}
use xtest.Squares.{jacobi, jacobi_loop, halve_loop, Sign, negative}

abbrev is_done : Outcome Sign → Bool
is_done (done s) = true
is_done _ = false

abbrev is_refused : Outcome Sign → Bool
is_refused (done negative) = true
is_refused _ = false

-- The loop ends for each of the 17 remainders, and refuses no square of one.
abbrev loop_ends : ℕ → Bool
loop_ends r = is_done (jacobi_loop 18 r 17 false)

abbrev square_passes : ℕ → Bool
square_passes m = not (is_refused (jacobi_loop 18 (m * m % 17) 17 false))

-- Squares by the remainder by 8.
abbrev square_by_8 : ℕ → Bool
square_by_8 m = if m * m % 8 % 2 == 0 then m * m % 8 % 4 == 0 else m * m % 8 == 1

all_end : passes_under loop_ends 17 ≡ true
unfolding passes_under jacobi_loop halve_loop
all_end = refl

all_squares_pass : passes_under square_passes 17 ≡ true
unfolding passes_under jacobi_loop halve_loop
all_squares_pass = refl

all_by_8 : passes_under square_by_8 8 ≡ true
unfolding passes_under
all_by_8 = refl

is_done-cases : (o : Outcome Sign) → is_done o ≡ true → (s : Sign) × (o ≡ done s)
is_done-cases (done s) e = (s, refl)
is_done-cases Outcome.undefined e = absurd cc
is_done-cases Outcome.timeout e = absurd cc

pub jacobi-returns : (v : ℕ) → (s : Sign) × (jacobi 18 v 17 ≡ done s)
unfolding jacobi
jacobi-returns v =
    is_done-cases (jacobi_loop 18 (v % 17) 17 false)
      (passes_under-lt loop_ends 17 (v % 17) (omega arith) all_end)

square_remainder : (x : ℕ) → x % 17 * (x % 17) % 17 ≡ x * x % 17
square_remainder x = mul-mod_both x x 17

-- A square passes the second refusal.
pub square-jacobi : (x : ℕ) → jacobi 18 (x * x) 17 ≢ done negative
unfolding jacobi
square-jacobi x e =
    let p = passes_under-lt square_passes 17 (x % 17) (omega arith) all_squares_pass in
    let q : not (is_refused (jacobi_loop 18 (x * x % 17) 17 false)) ≡ true =
      rw (← square_remainder x) p in
    let r : is_refused (jacobi_loop 18 (x * x % 17) 17 false) ≡ true = ap is_refused e in
    ground arith

module _ (v : ℕ) (p : (if v % 8 % 2 == 0 then v % 8 % 4 == 0 else v % 8 == 1) ≡ true) where
  by_even : v % 2 ≡ 0 → v % 4 ≡ 0
  by_even e =
      let f : v % 8 % 2 ≡ 0 = omega arith in let g : v % 8 % 4 ≡ 0 = ground arith in omega arith

  by_odd : ◌≢◌ {A = ℕ} (v % 2) 0 → v % 8 ≡ 1
  by_odd e = let f : ◌≢◌ {A = ℕ} (v % 8 % 2) 0 = (λ z. e (omega arith)) in ground arith

-- And the first.
pub square-even : (x : ℕ) → x * x % 2 ≡ 0 → x * x % 4 ≡ 0
square-even x e =
    let p = passes_under-lt square_by_8 8 (x % 8) (omega arith) all_by_8 in
    by_even (x * x) (rw (← mul-mod_both x x 8) p) e

pub square-odd : (x : ℕ) → ◌≢◌ {A = ℕ} (x * x % 2) 0 → x * x % 8 ≡ 1
square-odd x e =
    let p = passes_under-lt square_by_8 8 (x % 8) (omega arith) all_by_8 in
    by_odd (x * x) (rw (← mul-mod_both x x 8) p) e
