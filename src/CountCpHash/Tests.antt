-- ===== src/CountCpHash/Tests.antt =====
-- Two files with the same bytes, and one that does not open.
use xtest.Base.{◌≡◌, true, false, List, [], ◌∷◌, done}
use xtest.CpHash.Copy.{SourceFile}
use xtest.CpHash.Sample.{file}
use xtest.CountCpHash.{Tally, no_tally, count_cp_hash}
use xtest.CountCpHash.Saving.{Counted, count_cp_hash_lem}

abbrev unreadable : SourceFile
unreadable = record (file (4 ∷ []) (9 ∷ [])) { opens = false }

abbrev sample : List SourceFile
sample = file (1 ∷ []) (5 ∷ 6 ∷ []) ∷ file (2 ∷ []) (5 ∷ 6 ∷ []) ∷ unreadable ∷ []

count_cp_hash_lem_example :
    (t : Tally) × (count_cp_hash sample ≡ done (true, t)) × Counted sample no_tally t
count_cp_hash_lem_example = count_cp_hash_lem sample
