-- ===== src/Base/Sets.antt =====
-- A `std::unordered_set` of numbers, as the list of its elements.
use Prim.Native.Nat.{ℕ, ◌+◌}
use mathlib.Core.Path.{◌≡◌}
use mathlib.Core.Bool.{Bool, false, ◌||◌}
use mathlib.Core.List.{List, [], ◌∷◌}
use native.Mathlib.Omega.{arith}
use xtest.Base.Tests.{◌==◌, if◌then◌else◌}
use xtest.Base.Lists.{length}

abbrev pub contains : ℕ → List ℕ → Bool
contains x [] = false
contains x (y ∷ ys) = (y == x) || contains x ys

abbrev pub insert : ℕ → List ℕ → List ℕ
insert x xs = if contains x xs then xs else x ∷ xs

pub contains-insert :
    (x y : ℕ) (xs : List ℕ) → contains x (insert y xs) ≡ ((y == x) || contains x xs)
contains-insert x y xs = ground arith

pub length-insert :
    (x : ℕ) (xs : List ℕ) → length (insert x xs) ≡ length xs + (if contains x xs then 0 else 1)
length-insert x xs = ground arith
