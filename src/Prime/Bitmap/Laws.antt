-- ===== src/Prime/Bitmap/Laws.antt =====
-- What `setbit` writes, `bit` reads.
use xtest.Base.{
  &&-eq-true, ltb→lt, ℕ, ◌/◌, ◌%◌, ◌<◌, ◌≡◌, refl, arith, Bool, true, false, not, ◌&&◌, List,
  length, get_or, set, length-set, get_or-set, get_elem?-eq-get_or, done, ltb, ◌==◌, if◌then◌else◌,
}
use xtest.Base.Check.{passes_under, passes_under-lt}
use xtest.Prime.Bitmap.{load, bit, setbit, test_bit, put_bit}

beq : Bool → Bool → Bool
beq true b = b
beq false b = not b

beq-eq : (a b : Bool) → beq a b ≡ true → a ≡ b
unfolding beq
beq-eq a b h = ground arith

abbrev byte_row : Bool → ℕ → ℕ → ℕ → Bool
byte_row v w k j =
    beq (test_bit (put_bit w k v) j) (if j == k then v else test_bit w j) && ltb (put_bit w k v) 256

-- Every byte, every bit written and every bit read.
byte_table :
    (v : Bool)
    → passes_under (λ w. passes_under (λ k. passes_under (byte_row v w k) 8) 8) 256 ≡ true
unfolding passes_under beq
byte_table true = refl
byte_table false = refl

byte_row_lem : (v : Bool) (w k j : ℕ) → w < 256 → k < 8 → j < 8 → byte_row v w k j ≡ true
byte_row_lem v w k j hw hk hj =
    passes_under-lt _ 8 j hj (passes_under-lt _ 8 k hk (passes_under-lt _ 256 w hw (byte_table v)))

test_bit-put_bit :
    (v : Bool) (w k j : ℕ)
    → w < 256
    → k < 8
    → j < 8
    → (test_bit (put_bit w k v) j ≡ (if j == k then v else test_bit w j)) × (put_bit w k v < 256)
test_bit-put_bit v w k j hw hk hj =
    let row = &&-eq-true _ _ (byte_row_lem v w k j hw hk hj) in (beq-eq _ _ row.0, ltb→lt _ _ row.1)

-- The bit of an odd number as a total function.
abbrev pub flag : List ℕ → ℕ → Bool
flag p i = test_bit (get_or p (i / 2 / 8) 0) (i / 2 % 8)

abbrev pub IsBytes : List ℕ → Type 0
IsBytes p = (j : ℕ) → get_or p j 0 < 256

-- `setbit` as a total function.
pub put : List ℕ → ℕ → Bool → List ℕ
put p i v =
    if i % 2 == 0 then p else set p (i / 2 / 8) (put_bit (get_or p (i / 2 / 8) 0) (i / 2 % 8) v)

pub load-get_or : (p : List ℕ) (i : ℕ) → i < length p → load p i ≡ done (get_or p i 0)
unfolding load
load-get_or p i h = rw (get_elem?-eq-get_or p i 0 h, load) refl

module _ (p : List ℕ) (i : ℕ) (fits : i / 2 / 8 < length p) where
  pub bit-flag : i % 2 ≡ 1 → bit p i ≡ done (flag p i)
  unfolding bit
  bit-flag odd = ground (arith, load-get_or p (i / 2 / 8) fits)

  pub setbit-put : (v : Bool) → setbit p i v ≡ done (put p i v)
  unfolding setbit put
  setbit-put v = ground (arith, load-get_or p (i / 2 / 8) fits)

  pub length-put : (v : Bool) → length (put p i v) ≡ length p
  unfolding put
  length-put v =
      ground (arith, length-set p (i / 2 / 8) (put_bit (get_or p (i / 2 / 8) 0) (i / 2 % 8) v))

  module _ (bytes : IsBytes p) where
    pub put-IsBytes : (v : Bool) → IsBytes (put p i v)
    unfolding put
    put-IsBytes v j =
        let k = i / 2 % 8 in
        let w = get_or p (i / 2 / 8) 0 in
        let small = (test_bit-put_bit v w k 0 (bytes _) (omega arith) (omega arith)).1 in
        ground (arith, bytes j, get_or-set p (i / 2 / 8) j (put_bit w k v) 0 fits)

    pub flag-put :
        (v : Bool) (n : ℕ) → n % 2 ≡ 1 → flag (put p i v) n ≡ (if n == i then v else flag p n)
    unfolding put
    flag-put v n odd =
        let k = i / 2 % 8 in
        let w = get_or p (i / 2 / 8) 0 in
        let read = (test_bit-put_bit v w k (n / 2 % 8) (bytes _) (omega arith) (omega arith)).0 in
        ground (arith, get_or-set p (i / 2 / 8) (n / 2 / 8) (put_bit w k v) 0 fits)

pub bit_even : (p : List ℕ) (i : ℕ) → i % 2 ≡ 0 → bit p i ≡ done false
unfolding bit
bit_even p i h = ground arith
