-- ===== src/DbTransactor/Counts.antt =====
-- What is printed, against the entries before the first bad status.
use xtest.Base.{ℕ, ◌+◌, ◌≡◌, ◌||◌, List, [], ◌∷◌, if◌then◌else◌, length, arith, refl}
use xtest.Base.Sets.{contains, contains-insert, length-insert}
use xtest.DbTransactor.{Entry, RefScan, add_ref, scan_ref, scan_candidate, db_transactor}

-- The values up to the first bad status.
abbrev pub shown : List Entry → List ℕ
shown [] = []
shown (e ∷ rest) = if e.status_ok then e.value ∷ shown rest else []

-- The values of a list that another list does not have.
abbrev pub lacking : List ℕ → List ℕ → List ℕ
lacking have [] = []
lacking have (x ∷ xs) = if contains x have then lacking have xs else x ∷ lacking have xs

scan_ref-counts :
    (entries : List Entry) (s : RefScan)
    → ((scan_ref entries s).n_ref_files ≡ s.n_ref_files + length (shown entries))
      × ((scan_ref entries s).n_duplicates + length (scan_ref entries s).ref_hashes + s.n_ref_files
          ≡ s.n_duplicates + length s.ref_hashes + (scan_ref entries s).n_ref_files)
unfolding scan_ref
scan_ref-counts [] s = (omega arith, omega arith)
scan_ref-counts (e ∷ rest) s =
    ground (arith, scan_ref-counts rest (add_ref e.value s), length-insert e.value s.ref_hashes)

scan_ref-contains :
    (entries : List Entry) (s : RefScan) (x : ℕ)
    → contains x (scan_ref entries s).ref_hashes
      ≡ (contains x s.ref_hashes || contains x (shown entries))
unfolding scan_ref
scan_ref-contains [] s x = ground arith
scan_ref-contains (e ∷ rest) s x =
    ground
      (arith, scan_ref-contains rest (add_ref e.value s) x, contains-insert x e.value s.ref_hashes)

scan_candidate-lacking :
    (have other : List ℕ) (entries : List Entry)
    → ((x : ℕ) → contains x have ≡ contains x other)
    → scan_candidate have entries ≡ lacking other (shown entries)
unfolding scan_candidate
scan_candidate-lacking have other [] same = refl
scan_candidate-lacking have other (e ∷ rest) same =
    ground (arith, scan_candidate-lacking have other rest same, same e.value)

-- For any two databases: `nRefFiles` counts the reference's values up to the first bad status;
-- `nDuplicates` and the size of the set add up to it; the set holds those values and no others; and
-- the candidate's values up to its first bad status that are not among them are what is printed as
-- not found, each as often and in the order in which it stands.
pub db_transactor_lem :
    (ref candidate : List Entry)
    → ((db_transactor ref candidate).counts.n_ref_files ≡ length (shown ref))
      × ((db_transactor ref candidate).counts.n_duplicates
            + length (db_transactor ref candidate).counts.ref_hashes
          ≡ (db_transactor ref candidate).counts.n_ref_files)
      × ((x : ℕ)
          → contains x (db_transactor ref candidate).counts.ref_hashes ≡ contains x (shown ref))
      × ((db_transactor ref candidate).misses ≡ lacking (shown ref) (shown candidate))
unfolding db_transactor
db_transactor_lem ref candidate =
    let zeros : RefScan = record { ref_hashes = []; n_ref_files = 0; n_duplicates = 0 } in
    let (files, sum) = scan_ref-counts ref zeros in
    (
      omega (arith, files),
      omega (arith, sum),
      scan_ref-contains ref zeros,
      scan_candidate-lacking (scan_ref ref zeros).ref_hashes (shown ref) candidate
          (scan_ref-contains ref zeros),
    )
