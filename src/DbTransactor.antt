-- ===== src/DbTransactor.antt =====
-- dbtransactor.cc: counts the hashes of a reference database, and those of a candidate that the
-- reference lacks. A database is the list of the values that its iterator shows, each with whether the
-- iterator's status is good there; LevelDB itself is not in the repository.
pub mod Counts
pub mod Tests
use xtest.Base.{ℕ, ◌+◌, Bool, true, false, not, List, [], ◌∷◌, ◌==◌, if◌then◌else◌}
use xtest.Base.Sets.{contains, insert}

pub record Entry : Type 0 where
  pub status_ok : Bool
  pub value : ℕ

pub record RefScan : Type 0 where
  pub ref_hashes : List ℕ
  pub n_ref_files : ℕ
  pub n_duplicates : ℕ

abbrev pub add_ref : ℕ → RefScan → RefScan
add_ref value s = record {
  ref_hashes = insert value s.ref_hashes;
  n_ref_files = s.n_ref_files + 1;
  n_duplicates = if contains value s.ref_hashes then s.n_duplicates + 1 else s.n_duplicates;
}

unfoldable pub scan_ref : List Entry → RefScan → RefScan
scan_ref [] s = s
scan_ref (e ∷ rest) s =
    let later = scan_ref rest (add_ref e.value s) in if e.status_ok then later else s

-- The values that are printed as not found. Their number is `nMisses`.
unfoldable pub scan_candidate : List ℕ → List Entry → List ℕ
scan_candidate ref_hashes [] = []
scan_candidate ref_hashes (e ∷ rest) =
    let later = scan_candidate ref_hashes rest in
    if e.status_ok then (if contains e.value ref_hashes then later else e.value ∷ later) else []

pub record DbReport : Type 0 where
  pub counts : RefScan
  pub misses : List ℕ

unfoldable pub db_transactor : List Entry → List Entry → DbReport
db_transactor ref candidate =
    let s = scan_ref ref (record { ref_hashes = []; n_ref_files = 0; n_duplicates = 0 }) in
    record { counts = s; misses = scan_candidate s.ref_hashes candidate }
