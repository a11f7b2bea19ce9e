-- ===== src/DbTransactor/Tests.antt =====
-- A reference with a duplicate, and a candidate with one value that it lacks.
use xtest.Base.{ℕ, ◌+◌, ◌≡◌, true, [], ◌∷◌, List, length}
use xtest.Base.Sets.{contains}
use xtest.DbTransactor.{Entry, db_transactor}
use xtest.DbTransactor.Counts.{shown, db_transactor_lem}

abbrev ref : List Entry
ref =
    record { status_ok = true; value = 4 }
    ∷ record { status_ok = true; value = 4 }
    ∷ record { status_ok = true; value = 5 }
    ∷ []

abbrev candidate : List Entry
candidate = record { status_ok = true; value = 5 } ∷ record { status_ok = true; value = 9 } ∷ []

db_transactor_lem_example :
    ((db_transactor ref candidate).counts.n_ref_files ≡ 3)
    × ((db_transactor ref candidate).counts.n_duplicates
          + length (db_transactor ref candidate).counts.ref_hashes
        ≡ (db_transactor ref candidate).counts.n_ref_files)
    × ((x : ℕ)
        → contains x (db_transactor ref candidate).counts.ref_hashes ≡ contains x (shown ref))
    × ((db_transactor ref candidate).misses ≡ 9 ∷ [])
db_transactor_lem_example = db_transactor_lem ref candidate
