-- ===== src/CpHash/Sample.antt =====
-- A system for the tests, a sum in the place of MD5, and a destination with one file.
use xtest.Base.{ℕ, ◌+◌, ◌≡◌, Bool, true, false, [], ◌∷◌, none, some, length, arith}
use xtest.CpHash.Os.{Bytes, FilePath, Tree, lookup, listed, Os, IsOs}
use xtest.CpHash.Copy.{SourceFile}

abbrev pub absent : FilePath → Tree → Bool
absent p t = elim (lookup p t.files) [ none ↦ true | some c ↦ false ]

-- Every call succeeds where it may.
abbrev pub linux : Os
linux = record {
  fstatat = λ t p. listed p t.dirs;
  mkdirat = λ t p. true;
  openat = λ t p. absent p t;
  pwrite = λ p c. some (length c);
  reread = λ p c. some c;
}

absent_lem : (p : FilePath) (t : Tree) → absent p t ≡ true → lookup p t.files ≡ none
absent_lem p t h = ground (arith, h)

pub linux-IsOs : IsOs linux
linux-IsOs = record {
  openat_is_new = λ t p e. absent_lem p t e;
  pwrite_bounded = λ p c n e. ground arith;
  reread_same = λ p c b e. ground arith;
}

abbrev pub sum : Bytes → ℕ
sum [] = 0
sum (c ∷ rest) = c + sum rest

abbrev pub file : FilePath → Bytes → SourceFile
file p c = record {
  path = p;
  is_file = true;
  is_regular = true;
  content = c;
  opens = true;
  maps = true;
}

abbrev pub tree : Tree
tree = record { dirs = []; files = (1 ∷ [], 5 ∷ 6 ∷ []) ∷ [] }
