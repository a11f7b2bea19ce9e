-- ===== src/Cp/Tests.antt =====
-- A copy whose calls all succeed, into a tree with one other file.
use xtest.Base.{◌≡◌, true, [], ◌∷◌, some, done, refl}
use xtest.CpHash.Sample.{sum, tree}
use xtest.Cp.{Calls, After, copy_file, copy_file_hash}
use xtest.Cp.Effects.{Left, copy_file_hash_lem}
use xtest.Cp.Whole.{Placed, copy_file_lem}

abbrev fine : Calls
fine = record {
  opens = true;
  creats = true;
  stats_src = true;
  stats_dst = true;
  st_mode = 0x81a4;
  maps_src = true;
  content = 3 ∷ 4 ∷ [];
  fallocates = true;
  maps_dst = true;
  reread = λ b. some b;
}

copy_file_lem_example :
    (r : After) × (copy_file sum fine (8 ∷ []) tree ≡ done r) × Placed fine (8 ∷ []) tree r
copy_file_lem_example = copy_file_lem sum fine (8 ∷ []) tree refl refl

-- The hash that is given is not that of the file.
copy_file_hash_lem_example :
    (r : After) × (copy_file_hash sum fine (8 ∷ []) 6 tree ≡ done r)
    × Left sum fine 6 (3 ∷ 4 ∷ []) r
copy_file_hash_lem_example = copy_file_hash_lem sum fine (8 ∷ []) 6 tree (3 ∷ 4 ∷ []) refl refl
