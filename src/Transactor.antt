-- ===== src/Transactor.antt =====
-- transactor.cc: hashes a reference tree, checks the hashes against a database if there is one, and
-- lists the candidates whose hash the reference lacks. The items of the work queue are in the order in
-- which they run; LevelDB is a parameter, the value that it has for a path.
pub mod Listed
pub mod Reference
pub mod Tests
use xtest.Base.{
  ℕ, ◌+◌, Bool, true, false, ◌==◌, if◌then◌else◌, List, [], ◌∷◌, Option, none, some, Outcome, done,
  undefined, ◌>>=◌,
}
use xtest.Base.Sets.{contains, insert}

-- A file that `ftw` hands over, whether it is a regular one, and the result of `md5sum`.
pub record DirFile : Type 0 where
  pub fpath : ℕ
  pub is_regular : Bool
  pub md5sum : Option ℕ

-- The static variables for the reference.
pub record RefState : Type 0 where
  pub ref_set : List ℕ
  pub ref_n_files : ℕ
  pub ref_n_duplicate : ℕ
  pub ref_n_db_hits : ℕ

abbrev pub no_refs : RefState
no_refs = record { ref_set = []; ref_n_files = 0; ref_n_duplicate = 0; ref_n_db_hits = 0 }

-- `ref_db`, which may be null, and its `Get`.
abbrev pub RefDb : Type 0
RefDb = Option (ℕ → Option ℕ)

abbrev pub get_value : RefDb → ℕ → Option ℕ
get_value none path = none
get_value (some db) path = db path

abbrev pub count_hit : ℕ → Option ℕ → RefState → RefState
count_hit hval none s = s
count_hit hval (some v) s =
    if hval == v then record s { ref_n_db_hits = s.ref_n_db_hits + 1 } else s

-- A duplicate's string has been freed before it is compared with the value in the database.
abbrev pub use_freed : Option ℕ → RefState → Outcome RefState
use_freed none s = done s
use_freed (some v) s = undefined

abbrev pub ref_item : RefDb → DirFile → Option ℕ → RefState → Outcome RefState
ref_item db f none s = undefined
ref_item db f (some hval) s =
    if contains hval s.ref_set
    then use_freed (get_value db f.fpath) (record s { ref_n_duplicate = s.ref_n_duplicate + 1 })
    else done (count_hit hval (get_value db f.fpath) (record s { ref_set = insert hval s.ref_set }))

unfoldable pub process_ref_dir : RefDb → DirFile → RefState → Outcome RefState
process_ref_dir db f s =
    if f.is_regular
    then ref_item db f f.md5sum (record s { ref_n_files = s.ref_n_files + 1 })
    else done s

unfoldable pub ref_walk : RefDb → List DirFile → RefState → Outcome RefState
ref_walk db [] s = done s
ref_walk db (f ∷ rest) s = do t ← process_ref_dir db f s; ref_walk db rest t

-- The paths that are printed as misses, and the number of candidates.
pub record Candidates : Type 0 where
  pub n_records : ℕ
  pub misses : List ℕ

abbrev pub candidate_item : List ℕ → DirFile → Option ℕ → Candidates → Outcome Candidates
candidate_item refs f none s = undefined
candidate_item refs f (some hval) s =
    if contains hval refs then done s else done (record s { misses = f.fpath ∷ s.misses })

unfoldable pub process_candidate_dir : List ℕ → DirFile → Candidates → Outcome Candidates
process_candidate_dir refs f s =
    if f.is_regular
    then candidate_item refs f f.md5sum (record s { n_records = s.n_records + 1 })
    else done s

unfoldable pub candidate_walk : List ℕ → List DirFile → Candidates → Outcome Candidates
candidate_walk refs [] s = done s
candidate_walk refs (f ∷ rest) s = do t ← process_candidate_dir refs f s; candidate_walk refs rest t

abbrev pub candidates : List DirFile → RefState → Outcome Candidates
candidates files s = candidate_walk s.ref_set files (record { n_records = 0; misses = [] })

-- `main`: the reference first, then all candidates.
unfoldable pub transactor : RefDb → List DirFile → List DirFile → Outcome Candidates
transactor db refs files = do s ← ref_walk db refs no_refs; candidates files s
