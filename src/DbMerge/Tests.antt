-- ===== src/DbMerge/Tests.antt =====
-- A source of two records, one of which the destination has.
use xtest.Base.{ℕ, ◌≡◌, true, List, [], ◌∷◌, Option, none, some}
use xtest.DbMerge.{SrcRecord, Got, got, not_found, Db, db_lookup, LevelDb, start_merge, db_merge}
use xtest.DbMerge.Merged.{IsLevelDb, Merged, db_merge_lem}

abbrev got_or_not : Option ℕ → Got
got_or_not none = not_found
got_or_not (some v) = got v

abbrev plain : LevelDb
plain = record { get = λ d k. got_or_not (db_lookup k d); put = λ d k v. true }

got_or_not-got : (o : Option ℕ) (v : ℕ) → got_or_not o ≡ got v → o ≡ some v
got_or_not-got none v e = cc
got_or_not-got (some w) v e = cc

got_or_not-not_found : (o : Option ℕ) → got_or_not o ≡ not_found → o ≡ none
got_or_not-not_found none e = cc
got_or_not-not_found (some w) e = cc

plain-IsLevelDb : IsLevelDb plain
plain-IsLevelDb = record {
  got_stored = λ d k v e. got_or_not-got (db_lookup k d) v e;
  not_stored = λ d k e. got_or_not-not_found (db_lookup k d) e;
}

abbrev source : List SrcRecord
source =
    record { status_ok = true; key = 1; value = 7 }
    ∷ record { status_ok = true; key = 2; value = 8 }
    ∷ []

abbrev destination : Db
destination = (1, 7) ∷ (3, 9) ∷ []

db_merge_lem_example :
    Merged source
      (start_merge destination)
      (db_merge plain source destination).0
      (db_merge plain source destination).1
db_merge_lem_example = db_merge_lem plain source destination plain-IsLevelDb
