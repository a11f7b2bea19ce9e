-- ===== src/CpHash/Os.antt =====
-- The system's calls, and what their manuals promise.
use xtest.Base.{
  ℕ, ◌≤◌, ◌≡◌, Bool, true, false, ◌&&◌, ◌||◌, List, [], ◌∷◌, Option, none, some, length, ◌==◌,
  if◌then◌else◌,
}

abbrev pub Bytes : Type 0
Bytes = List ℕ

-- The names of a relative path, the last one first; `.` is the empty list. So the rest of a list is
-- its `dirname`.
abbrev pub FilePath : Type 0
FilePath = List ℕ

abbrev pub path_eq : FilePath → FilePath → Bool
path_eq [] [] = true
path_eq [] (y ∷ ys) = false
path_eq (x ∷ xs) [] = false
path_eq (x ∷ xs) (y ∷ ys) = (x == y) && path_eq xs ys

-- What lies under the destination.
pub record Tree : Type 0 where
  pub dirs : List FilePath
  pub files : List (FilePath × Bytes)

abbrev pub lookup : FilePath → List (FilePath × Bytes) → Option Bytes
lookup p [] = none
lookup p ((q, c) ∷ rest) = if path_eq q p then some c else lookup p rest

abbrev pub listed : FilePath → List FilePath → Bool
listed p [] = false
listed p (q ∷ rest) = path_eq q p || listed p rest

-- `mkdirat` and `openat` (which creates
-- and fails on what is there) tell whether the call succeeds, `pwrite` gives the count, or `none`
-- for -1, and `reread` what `mmap` shows of the new file.
pub record Os : Type 0 where
  pub fstatat : Tree → FilePath → Bool
  pub mkdirat : Tree → FilePath → Bool
  pub openat : Tree → FilePath → Bool
  pub pwrite : FilePath → Bytes → Option ℕ
  pub reread : FilePath → Bytes → Option Bytes

pub record IsOs (os : Os) : Type 0 where
  pub openat_is_new : (t : Tree) (p : FilePath) → os.openat t p ≡ true → lookup p t.files ≡ none
  pub pwrite_bounded : (p : FilePath) (c : Bytes) (n : ℕ) → os.pwrite p c ≡ some n → n ≤ length c
  pub reread_same : (p : FilePath) (c b : Bytes) → os.reread p c ≡ some b → b ≡ c
