-- ===== src/Base/Arith.antt =====
-- Powers and remainders of products, which `omega` takes for unknowns.
use native.Mathlib.Nat.{pow-suc, pow-zero, mul-add-mod_self_left, mod-add-div, mul_comm}
use native.Mathlib.Nat.{zero-add}
use xtest.Base.{ℕ, zero, suc, ◌+◌, ◌*◌, ◌/◌, ◌%◌, ◌^◌, ◌≡◌, refl, ap, sym, ◌∙◌, arith}

pub mul-mod_left : (a b m : ℕ) → a % m * b % m ≡ a * b % m
mul-mod_left a b m =
    let e : a * b ≡ m * (a / m * b) + a % m * b =
      omega (arith, ap (λ (t : ℕ). t * b) (mod-add-div a m)) in
    rw e (sym (mul-add-mod_self_left m (a / m * b) (a % m * b)))

pub mul-mod_right : (a b m : ℕ) → a * (b % m) % m ≡ a * b % m
mul-mod_right a b m = rw (mul_comm a (b % m), mul_comm a b) (mul-mod_left b a m)

pub mul-mod_both : (a b m : ℕ) → a % m * (b % m) % m ≡ a * b % m
mul-mod_both a b m = mul-mod_right (a % m) b m ∙ mul-mod_left a b m

pub pow-add : (b m n : ℕ) → b ^ (m + n) ≡ b ^ m * b ^ n
pow-add b zero n = rw (zero-add n, pow-zero b) (omega arith)
pow-add b (suc m) n =
    let e : suc m + n ≡ suc (m + n) = omega arith in
    rw (e, pow-suc b (m + n), pow-suc b m, pow-add b m n) (omega arith)

-- (b * b) ^ e is b ^ 2e.
pub pow-square : (b e : ℕ) → (b * b) ^ e ≡ b ^ (e + e)
pow-square b zero = rw (pow-zero (b * b)) (sym (pow-zero b))
pow-square b (suc e) =
    let d : suc e + suc e ≡ suc (suc (e + e)) = omega arith in
    rw (d, pow-suc (b * b) e, pow-suc b (suc (e + e)), pow-suc b (e + e), pow-square b e)
      (omega arith)

pub pow-mod : (b e m : ℕ) → (b % m) ^ e % m ≡ b ^ e % m
pow-mod b zero m = rw (pow-zero (b % m), pow-zero b) refl
pow-mod b (suc e) m =
    rw (pow-suc (b % m) e, pow-suc b e)
      (sym (mul-mod_both ((b % m) ^ e) (b % m) m)
        ∙ ap (λ (t : ℕ). t * (b % m % m) % m) (pow-mod b e m)
        ∙ mul-mod_both (b ^ e) (b % m) m
        ∙ mul-mod_right (b ^ e) b m)
