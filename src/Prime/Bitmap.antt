-- ===== src/Prime/Bitmap.antt =====
-- `bit`, `setbit` and `bits` of test_prime.c: a bit for each odd number, eight to a byte.
pub mod Laws
use xtest.Base.{
  ℕ, zero, suc, ◌+◌, ◌-◌, ◌*◌, ◌/◌, ◌%◌, ◌^◌, ◌≤◌, ◌<◌, ◌≡◌, ◌≢◌, refl, ap, sym, ◌∙◌, arith, Bool,
  true, false, not, bit_and, bit_or, List, Option, none, some, length, get_elem?, get_or, set,
  length-set, get_elem?-set_self, get_elem?-set_ne, Outcome, done, undefined, ◌>>=◌, ◌==◌, ==_iff,
  if◌then◌else◌, Bool-cases, ◌<<<◌,
}

-- A read of an array; past its end C leaves it undefined.
unfoldable pub load {ℓ} : {A : Type ℓ} → List A → ℕ → Outcome A
load p i = elim (get_elem? p i) [ none ↦ undefined | some v ↦ done v ]

-- The `int` result is used as a truth value.
unfoldable pub bit : List ℕ → ℕ → Outcome Bool
bit p i =
    let idx = i / 2 / 8 in
    let bitidx = i / 2 % 8 in
    if i % 2 == 0 then done false else do v ← load p idx; done (not (bit_and v (1 <<< bitidx) == 0))

-- On a byte, `& ~(1 << k)` is `& (255 - 2 ^ k)`.
unfoldable pub setbit : List ℕ → ℕ → Bool → Outcome (List ℕ)
setbit p i v =
    let idx = i / 2 / 8 in
    let bitidx = i / 2 % 8 in
    if i % 2 == 0 then done p else do
      w ← load p idx
      done (set p idx (if v then bit_or w (1 <<< bitidx) else bit_and w (255 - (1 <<< bitidx))))

unfoldable pub bits : ℕ → ℕ
bits i = i / 2 / 8

abbrev pub test_bit : ℕ → ℕ → Bool
test_bit w k = not (bit_and w (1 <<< k) == 0)

abbrev pub put_bit : ℕ → ℕ → Bool → ℕ
put_bit w k v = if v then bit_or w (1 <<< k) else bit_and w (255 - (1 <<< k))
