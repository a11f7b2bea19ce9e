-- ===== src/Prime/Modexp.antt =====
-- `modexp` of test_prime.c: square and multiply in `__int128`.
use native.Mathlib.Nat.{
  pow-suc, pow-zero, two-pow-succ, mod-eq_of_lt, mod-one, mod-lt, mul-one, one-mul,
}
use xtest.Base.{
  ℕ, zero, suc, ◌+◌, ◌*◌, ◌/◌, ◌%◌, ◌^◌, ◌≤◌, ◌<◌, ◌≡◌, refl, ap, sym, ◌∙◌, arith, inl, inr,
  Outcome, done, undefined, timeout, ◌>>=◌, require, ltb, ◌==◌, if◌then◌else◌, Bool-cases, u64,
}
use xtest.Base.Arith.{mul-mod_left, mul-mod_right, pow-square, pow-mod}

-- `(a * b) % m`: the product is a signed `__int128`, whose overflow is undefined, as is `% 0`.
unfoldable pub mul_mod : ℕ → ℕ → ℕ → Outcome ℕ
mul_mod a b m = require (ltb (a * b) (2 ^ 127)) (require (ltb 0 m) (done (a * b % m)))

-- `while (exp > 0) { ... }`
unfoldable pub modexp_loop : ℕ → ℕ → ℕ → ℕ → ℕ → Outcome ℕ
modexp_loop zero result b exp m = timeout
modexp_loop (suc fuel) result b exp m =
    let round = (do
      r ← (if exp % 2 == 1 then mul_mod result b m else done result)
      s ← mul_mod b b m
      modexp_loop fuel r s (exp / 2) m) in
    if exp == 0 then done result else round

-- `exp` is a 64-bit number, so 65 rounds of fuel suffice.
unfoldable pub modexp : ℕ → ℕ → ℕ → Outcome ℕ
modexp base exp m =
    if m == 1
    then done 0
    else require (ltb 0 m) (do r ← modexp_loop 65 1 (base % m) exp m; done (u64 r))

-- Below 2 ^ 63 the products fit.
mul_mod_lem : (a b m : ℕ) → 1 < m → m ≤ 2 ^ 63 → a < m → b < m → mul_mod a b m ≡ done (a * b % m)
unfolding mul_mod
mul_mod_lem a b m pos small ha hb = let fits : a * b < 2 ^ 127 = grind arith in ground arith

-- One round halves the exponent and keeps `result * b ^ exp` modulo `m`.
round_even : (result b e m : ℕ) → result * (b * b % m) ^ e % m ≡ result * b ^ (e + e) % m
round_even result b e m =
    sym (mul-mod_right result ((b * b % m) ^ e) m)
    ∙ ap (λ (t : ℕ). result * t % m) (pow-mod (b * b) e m)
    ∙ mul-mod_right result ((b * b) ^ e) m
    ∙ ap (λ (t : ℕ). result * t % m) (pow-square b e)

round_odd : (result b e m : ℕ) → result * b % m * (b * b % m) ^ e % m ≡ result * b ^ suc (e + e) % m
round_odd result b e m =
    mul-mod_left (result * b) ((b * b % m) ^ e) m
    ∙ round_even (result * b) b e m
    ∙ rw (pow-suc b (e + e)) (ap (λ (t : ℕ). t % m) (omega arith))

abbrev times_odd : ℕ → ℕ → ℕ → ℕ → ℕ
times_odd result b exp m = if exp % 2 == 1 then result * b % m else result

modexp_loop_step :
    (fuel result b exp m : ℕ)
    → 1 < m
    → m ≤ 2 ^ 63
    → result < m
    → b < m
    → 0 < exp
    → modexp_loop (suc fuel) result b exp m
      ≡ modexp_loop fuel (times_odd result b exp m) (b * b % m) (exp / 2) m
unfolding modexp_loop
modexp_loop_step fuel result b exp m pos small hr hb he =
    ground (arith, mul_mod_lem result b m, mul_mod_lem b b m)

times_odd_lem :
    (result b exp m : ℕ)
    → times_odd result b exp m * (b * b % m) ^ (exp / 2) % m ≡ result * b ^ exp % m
times_odd_lem result b exp m = elim (Bool-cases (exp % 2 == 1)) [
  | inl odd ↦
      let e : exp ≡ suc (exp / 2 + exp / 2) = ground arith in
      rw odd (round_odd result b (exp / 2) m ∙ ap (λ (t : ℕ). result * b ^ t % m) (sym e))
  | inr even ↦
      let e : exp ≡ exp / 2 + exp / 2 = ground arith in
      rw even (round_even result b (exp / 2) m ∙ ap (λ (t : ℕ). result * b ^ t % m) (sym e))
]

-- With more rounds than `exp` has binary digits the loop returns.
modexp_loop_lem :
    (fuel result b exp m : ℕ)
    → 1 < m
    → m ≤ 2 ^ 63
    → result < m
    → b < m
    → exp < 2 ^ fuel
    → modexp_loop (suc fuel) result b exp m ≡ done (result * b ^ exp % m)
modexp_loop_lem fuel result b zero m pos small hr hb he =
    unfold modexp_loop in rw (pow-zero b, mul-one result, mod-eq_of_lt hr) refl
modexp_loop_lem zero result b (suc exp) m pos small hr hb he = absurd (omega arith)
modexp_loop_lem (suc fuel) result b (suc exp) m pos small hr hb he =
    modexp_loop_step (suc fuel) result b (suc exp) m pos small hr hb (omega arith)
    ∙ modexp_loop_lem fuel (times_odd result b (suc exp) m) (b * b % m) (suc exp / 2) m pos small
        (ground arith) (omega arith) (omega (arith, two-pow-succ fuel))
    ∙ ap done (times_odd_lem result b (suc exp) m)

-- For a modulus from 1 to 2 ^ 63 and a 64-bit exponent `modexp` returns, nothing overflows, and
-- the result is the power modulo the modulus.
pub modexp_lem :
    (base exp m : ℕ) → 0 < m → m ≤ 2 ^ 63 → exp < 2 ^ 64 → modexp base exp m ≡ done (base ^ exp % m)
unfolding modexp
modexp_lem base exp m pos small he = elim (Bool-cases (m == 1)) [
  | inl one ↦ let e : m ≡ 1 = ground arith in rw one (ap done (rw e (sym (mod-one (base ^ exp)))))
  | inr big ↦
      let lt : 1 < m = ground arith in
      let run : modexp_loop 65 1 (base % m) exp m ≡ done (base ^ exp % m) =
        modexp_loop_lem 64 1 (base % m) exp m lt small lt (omega arith) he
        ∙ ap done (rw (one-mul ((base % m) ^ exp)) (pow-mod base exp m)) in
      ground (arith, run, mod-lt (base ^ exp) {m = m})
]

loop_overflow :
    (fuel b exp m : ℕ) → 0 < exp → 2 ^ 127 ≤ b * b → modexp_loop (suc fuel) 1 b exp m ≡ undefined
unfolding modexp_loop mul_mod
loop_overflow fuel b exp m he big = ground arith

-- Where the square of the reduced base passes the range of `__int128`, already the first round
-- overflows: for every 64-bit modulus and every positive exponent the call is undefined.
pub modexp_overflow :
    (base exp m : ℕ)
    → 1 < m
    → m < 2 ^ 64
    → 0 < exp
    → 2 ^ 127 ≤ base % m * (base % m)
    → modexp base exp m ≡ undefined
unfolding modexp
modexp_overflow base exp m pos small he big =
    let run : modexp_loop 65 1 (base % m) exp m ≡ undefined =
      loop_overflow 64 (base % m) exp m he big in
    ground arith
