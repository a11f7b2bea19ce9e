-- ===== src/Cpcr2/Fits.antt =====
-- How long a name gets.
use xtest.Base.{ℕ, zero, suc, ◌+◌, ◌/◌, ◌%◌, ◌≤◌, List, [], ◌∷◌, ◌++◌, length, length-append, arith}
use xtest.Cpcr2.Name.{after_last, before_last, digits, dcp_name}

length-after_last : (c : ℕ) (text : List ℕ) → length (after_last c text) ≤ length text
length-after_last c [] = omega arith
length-after_last c (x ∷ rest) = ground (arith, length-after_last c rest)

length-before_last : (c : ℕ) (text : List ℕ) → length (before_last c text) ≤ length text
length-before_last c [] = omega arith
length-before_last c (x ∷ rest) = ground (arith, length-before_last c rest)

length-digits : (fuel n : ℕ) (out : List ℕ) → length (digits fuel n out) ≤ fuel + length out
length-digits zero n out = omega arith
length-digits (suc fuel) n out = ground (arith, length-digits fuel (n / 10) ((48 + n % 10) ∷ out))

-- A name is at most 22 characters, and those of its extension, longer than the two paths.
pub length-dcp_name :
    (dst path : List ℕ) (n : ℕ) (extension : List ℕ)
    → length (dcp_name dst path n extension) ≤ length dst + length path + 23 + length extension
unfolding dcp_name
length-dcp_name dst path n extension =
    let stem = before_last 46 (after_last 47 path) in
    omega (
      arith,
      length-append {0} dst (47 ∷ (stem ++ (46 ∷ (digits 20 n [] ++ (46 ∷ extension))))),
      length-append {0} stem (46 ∷ (digits 20 n [] ++ (46 ∷ extension))),
      length-append {0} (digits 20 n []) (46 ∷ extension),
      length-digits 20 n [],
      length-before_last 46 (after_last 47 path),
      length-after_last 47 path,
    )
