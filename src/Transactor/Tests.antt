-- ===== src/Transactor/Tests.antt =====
-- A directory with two reference files of one hash, which the database has, and a directory with two
-- candidates.
use xtest.Base.{◌≡◌, ◌⊎◌, true, false, List, [], ◌∷◌, none, some, done, undefined, refl}
use xtest.Transactor.{RefDb, Candidates, transactor}
use xtest.Transactor.Reference.{Visit, hashed, other, walk_of, hashed_of, transactor_lem}
use xtest.Transactor.Listed.{reuses, missing}

abbrev kept_refs : List Visit
kept_refs = other 9 none ∷ hashed 1 7 ∷ hashed 2 7 ∷ []

abbrev offered : List Visit
offered = other 8 none ∷ hashed 3 7 ∷ hashed 4 8 ∷ []

abbrev all_seven : RefDb
all_seven = some (λ path. some 7)

transactor_lem_example :
    (reuses all_seven [] (hashed_of kept_refs) ≡ true)
      × (transactor all_seven (walk_of kept_refs) (walk_of offered) ≡ undefined)
    ⊎ (reuses all_seven [] (hashed_of kept_refs) ≡ false)
      × (t : Candidates) × (transactor all_seven (walk_of kept_refs) (walk_of offered) ≡ done t)
      × (t.misses ≡ missing (hashed_of kept_refs) (hashed_of offered) [])
transactor_lem_example = transactor_lem all_seven kept_refs offered

duplicate_in_db : reuses all_seven [] (hashed_of kept_refs) ≡ true
duplicate_in_db = refl
