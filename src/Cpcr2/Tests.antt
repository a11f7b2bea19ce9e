-- ===== src/Cpcr2/Tests.antt =====
-- The files `a/b.cr2`, which is copied, and `a/c.cr2`, whose copy is read back with another hash.
use xtest.Base.{ℕ, ◌≡◌, true, List, [], ◌∷◌, ◌++◌, some, done, undefined, refl, arith}
use xtest.CpHash.Sample.{sum, tree}
use xtest.Cp.{Calls}
use xtest.Cpcr2.{Photo, Album, new_album, process_files, cp_cr2}
use xtest.Cpcr2.Name.{is_cr2}
use xtest.Cpcr2.Once.{IsFine, Tallied, wanted_photos, process_files_lem}
use xtest.Cpcr2.Freed.{cp_cr2-undefined}

abbrev raw_calls : Calls
raw_calls = record {
  opens = true;
  creats = true;
  stats_src = true;
  stats_dst = true;
  st_mode = 0x81a4;
  maps_src = true;
  content = 3 ∷ 4 ∷ [];
  fallocates = true;
  maps_dst = true;
  reread = λ b. some b;
}

abbrev photo_b : Photo
photo_b = record {
  fpath = 97 ∷ 47 ∷ 98 ∷ 46 ∷ 99 ∷ 114 ∷ 50 ∷ [];
  is_file = true;
  st_size = 2;
  md5sum = some 7;
  cr2 = raw_calls;
  jpg = raw_calls;
}

-- Its hash is not the sum of what is copied.
abbrev photo_c : Photo
photo_c = record photo_b { fpath = 97 ∷ 47 ∷ 99 ∷ 46 ∷ 99 ∷ 114 ∷ 50 ∷ []; md5sum = some 8 }

abbrev target : List ℕ
target = 100 ∷ []

photo_b-IsFine : IsFine sum target photo_b
photo_b-IsFine = record {
  hash = 7;
  hashes = refl;
  slash = refl;
  short = omega arith;
  cr2_fallocates = refl;
  cr2_bytes = 3 ∷ 4 ∷ [];
  cr2_rereads = refl;
  cr2_matches = refl;
  jpg_fallocates = refl;
  jpg_rereads = refl;
}

process_files_lem_example :
    (u : Album) × (process_files sum target (photo_b ∷ []) (new_album tree) ≡ done u)
    × (cp_cr2 sum target (photo_b ∷ []) tree ≡ done (record u { md5set = [] }))
    × Tallied (wanted_photos (photo_b ∷ [])) u
process_files_lem_example = process_files_lem sum target (photo_b ∷ []) tree (photo_b-IsFine, tt)

photo_b_is_wanted : wanted_photos (photo_b ∷ []) ≡ 1
unfolding is_cr2
photo_b_is_wanted = refl

photo_c_is_wanted : is_cr2 photo_c.fpath ≡ true
unfolding is_cr2
photo_c_is_wanted = refl

cp_cr2-undefined_example : cp_cr2 sum target ([] ++ photo_c ∷ photo_b ∷ []) tree ≡ undefined
unfolding process_files
cp_cr2-undefined_example =
    cp_cr2-undefined sum target [] photo_c (photo_b ∷ []) tree (new_album tree) 8 (3 ∷ 4 ∷ []) refl
      photo_c_is_wanted refl refl refl refl refl
