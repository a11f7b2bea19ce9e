-- ===== src/CmpDir.antt =====
-- cmpdir.cc: compares two trees by the number, the size and the hashes of their files. The counters
-- are taken to stay in the range of their types.
pub mod Verdict
pub mod Tests
use xtest.Base.{
  ℕ, ◌+◌, Bool, true, false, not, ◌&&◌, ◌==◌, if◌then◌else◌, List, [], ◌∷◌, Outcome, done,
  undefined, ◌>>=◌,
}
use xtest.Base.Sets.{contains, insert}
use xtest.Hashes.{fnv1a_32}
use xtest.CpHash.Copy.{SourceFile, st_size, reads}
use xtest.CpHash.Nftw.{nftw}
use xtest.CpHash.Walk.{is_wanted}

-- The static variables of one tree: `nFilesA`, `nBytesA` and `hashesA`.
pub record Side : Type 0 where
  pub n_files : ℕ
  pub n_bytes : ℕ
  pub hashes : List ℕ

abbrev pub empty_side : Side
empty_side = record { n_files = 0; n_bytes = 0; hashes = [] }

-- `fnvpath`: 0 where the file does not open or map.
unfoldable pub fnv_path : SourceFile → ℕ
fnv_path f = if reads f then fnv1a_32 f.content else 0

abbrev pub counted_in : SourceFile → Side → Side
counted_in f s = record s { n_files = s.n_files + 1; n_bytes = s.n_bytes + st_size f }

abbrev pub hashed_in : ℕ → Side → Side
hashed_in hash s = record s { hashes = insert hash s.hashes }

-- `cbA`, and `cbB`, which is the same on the other variables. Where a file is not counted, `s == 0`
-- reads a variable that has no value.
unfoldable pub cb_side : SourceFile → Side → Outcome (Bool × Side)
cb_side f s =
    let seen = counted_in f s in
    if is_wanted f
    then (if fnv_path f == 0 then done (false, seen) else done (true, hashed_in (fnv_path f) seen))
    else undefined

-- What `main` returns: 0, -1, -2 or -3.
pub data Comparison : Type 0 where
  same : Comparison
  files_differ : Comparison
  bytes_differ : Comparison
  hashes_differ : Comparison

abbrev pub is_subset : List ℕ → List ℕ → Bool
is_subset [] ys = true
is_subset (x ∷ xs) ys = contains x ys && is_subset xs ys

-- `==` on two sets.
abbrev pub set_eq : List ℕ → List ℕ → Bool
set_eq xs ys = is_subset xs ys && is_subset ys xs

abbrev pub compare_sides : Side → Side → Comparison
compare_sides a b =
    if not (a.n_files == b.n_files)
    then files_differ
    else if not (a.n_bytes == b.n_bytes)
    then bytes_differ
    else if set_eq a.hashes b.hashes
    then same
    else hashes_differ

abbrev pub sides : Bool × Side → Bool × Side → Outcome Comparison
sides (ok_a, a) (ok_b, b) = done (compare_sides a b)

unfoldable pub cmp_dir : List SourceFile → List SourceFile → Outcome Comparison
cmp_dir files_a files_b = do
  a ← nftw cb_side files_a empty_side
  b ← nftw cb_side files_b empty_side
  sides a b
