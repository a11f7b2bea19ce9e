-- ===== src/Cpcr2/Name.antt =====
-- The names of files, as lists of characters.
use xtest.Base.{
  ℕ, zero, suc, ◌+◌, ◌-◌, ◌/◌, ◌%◌, Bool, true, false, ◌&&◌, ◌||◌, leb, ltb, ◌==◌, if◌then◌else◌,
  List, [], ◌∷◌, ◌++◌, Option, none, some,
}

abbrev pub to_upper : ℕ → ℕ
to_upper c = if leb 97 c && leb c 122 then c - 32 else c

-- The text after ".CR2", in any case, at the front.
abbrev pub after_cr2 : List ℕ → Option (List ℕ)
after_cr2 (a ∷ b ∷ c ∷ d ∷ rest) =
    if (a == 46) && ((to_upper b == 67) && ((to_upper c == 82) && (d == 50)))
    then some rest
    else none
after_cr2 short = none

abbrev pub or_else : Option (List ℕ) → Option (List ℕ) → Option (List ℕ)
or_else none later = later
or_else (some x) later = some x

-- `strcasestr` finds the first occurrence, and the text after it is to be empty.
abbrev pub first_cr2 : List ℕ → Option (List ℕ)
first_cr2 [] = none
first_cr2 (c ∷ rest) = or_else (after_cr2 (c ∷ rest)) (first_cr2 rest)

abbrev pub is_end : Option (List ℕ) → Bool
is_end none = false
is_end (some []) = true
is_end (some (c ∷ rest)) = false

unfoldable pub is_cr2 : List ℕ → Bool
is_cr2 path = is_end (first_cr2 path)

abbrev pub has_char : ℕ → List ℕ → Bool
has_char c [] = false
has_char c (x ∷ rest) = (x == c) || has_char c rest

abbrev pub has_slash : List ℕ → Bool
has_slash path = has_char 47 path

-- The text after the last `c`, or the whole text.
abbrev pub after_last : ℕ → List ℕ → List ℕ
after_last c [] = []
after_last c (x ∷ rest) =
    let later = after_last c rest in
    if has_char c rest then later else if x == c then rest else x ∷ rest

-- The text before the last `c`, or the whole text.
abbrev pub before_last : ℕ → List ℕ → List ℕ
before_last c [] = []
before_last c (x ∷ rest) =
    let more = x ∷ before_last c rest in
    if has_char c rest then more else if x == c then [] else more

-- `%lu`, on at most 20 digits.
abbrev pub digits : ℕ → ℕ → List ℕ → List ℕ
digits zero n out = out
digits (suc fuel) n out =
    let longer = digits fuel (n / 10) ((48 + n % 10) ∷ out) in
    if ltb n 10 then (48 + n) ∷ out else longer

-- "%s/%s.%lu." and the extension.
unfoldable pub dcp_name : List ℕ → List ℕ → ℕ → List ℕ → List ℕ
dcp_name dst path n extension =
    dst
    ++ (47 ∷ (before_last 46 (after_last 47 path) ++ (46 ∷ (digits 20 n [] ++ (46 ∷ extension)))))
