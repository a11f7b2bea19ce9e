-- ===== src/Cpcr2.antt =====
-- cpcr2.cc: copies each Canon raw file that is not a duplicate, and the JPG beside it. The items of the
-- work queue run one after another here; they share only the counters and the set, which is used under
-- a mutex, and each copies to paths with a sequence number of its own.
pub mod Name
pub mod Fits
pub mod Once
pub mod Freed
pub mod Tests
use xtest.Base.{
  ℕ, zero, suc, ◌+◌, ◌/◌, ◌%◌, Bool, true, false, not, ◌&&◌, ◌||◌, ltb, ◌==◌, if◌then◌else◌, List,
  [], ◌∷◌, ◌++◌, length, Option, none, some, Outcome, done, undefined, require, ◌>>=◌,
}
use xtest.CpHash.Os.{Bytes, Tree}
use xtest.Cp.{Calls, After, copy_file, copy_file_hash}
use xtest.Cpcr2.Name.{is_cr2, has_slash, dcp_name}

-- A file that `ftw` hands over, the result of `md5sum` on it, and how the calls of the two copies go.
pub record Photo : Type 0 where
  pub fpath : List ℕ
  pub is_file : Bool
  pub st_size : ℕ
  pub md5sum : Option ℕ
  pub cr2 : Calls
  pub jpg : Calls

-- A string of `md5set`, and whether it has been freed.
pub record Held : Type 0 where
  pub hash : ℕ
  pub freed : Bool

-- The static variables, and the files.
pub record Album : Type 0 where
  pub md5set : List Held
  pub n_files : ℕ
  pub n_unique : ℕ
  pub n_duplicate : ℕ
  pub n_cr2_err : ℕ
  pub n_jpg_err : ℕ
  pub seq : ℕ
  pub tree : Tree

abbrev pub new_album : Tree → Album
new_album t = record {
  md5set = [];
  n_files = 0;
  n_unique = 0;
  n_duplicate = 0;
  n_cr2_err = 0;
  n_jpg_err = 0;
  seq = 0;
  tree = t;
}

-- The strings are equal.
abbrev pub is_held : ℕ → List Held → Bool
is_held h [] = false
is_held h (x ∷ rest) = (h == x.hash) || is_held h rest

abbrev pub any_freed : List Held → Bool
any_freed [] = false
any_freed (x ∷ rest) = x.freed || any_freed rest

-- `find`, which may read any string of the set: with a freed one among them it is taken as undefined.
abbrev pub find : ℕ → List Held → Outcome Bool
find h set = require (not (any_freed set)) (done (is_held h set))

abbrev pub is_wanted_photo : Photo → Bool
is_wanted_photo p = p.is_file && (not (p.st_size == 0) && is_cr2 p.fpath)

abbrev pub count_err : Bool → ℕ → ℕ
count_err ok n = if ok then n else n + 1

-- The loop at the end of `main`: freeing a string twice is undefined.
abbrev pub free_all : Album → Outcome Album
free_all s = require (not (any_freed s.md5set)) (done (record s { md5set = [] }))

module _ (md5 : Bytes → ℕ) (dst : List ℕ) where
  abbrev pub keep_jpg : Album → After → Outcome Album
  keep_jpg s r = done (record s { n_jpg_err = count_err r.ok s.n_jpg_err; tree = r.tree })

  -- From `copy_file_hash` on: the counter of its errors, the string that it may have freed, and the
  -- copy of the JPG under the same number.
  abbrev pub keep_cr2 : Photo → ℕ → ℕ → Album → After → Outcome Album
  keep_cr2 p hval n s r = do
    q ← copy_file md5 p.jpg (dcp_name dst p.fpath n (74 ∷ 80 ∷ 71 ∷ [])) r.tree
    keep_jpg
        (record s {
          md5set = record { hash = hval; freed = r.hash_freed } ∷ s.md5set;
          n_cr2_err = count_err r.ok s.n_cr2_err;
        })
        q

  -- A hash that is not in the set. The buffer for a name has 1024 bytes.
  abbrev pub first_seen : Photo → ℕ → Album → Outcome Album
  first_seen p hval s =
      let name = dcp_name dst p.fpath s.seq (67 ∷ 82 ∷ 50 ∷ []) in
      let t = record s { n_unique = s.n_unique + 1; seq = s.seq + 1 } in
      require (has_slash p.fpath && ltb (length name) 1024)
        (do r ← copy_file_hash md5 p.cr2 name hval s.tree; keep_cr2 p hval s.seq t r)

  abbrev pub after_find : Photo → ℕ → Album → Bool → Outcome Album
  after_find p hval s found =
      if found then done (record s { n_duplicate = s.n_duplicate + 1 }) else first_seen p hval s

  -- The work item.
  abbrev pub item : Photo → Option ℕ → Album → Outcome Album
  item p none s = undefined
  item p (some hval) s = find hval s.md5set >>= after_find p hval s

  unfoldable pub process_file : Photo → Album → Outcome Album
  process_file p s =
      let t = record s { n_files = s.n_files + 1 } in
      if is_wanted_photo p then item p p.md5sum t else done s

  unfoldable pub process_files : List Photo → Album → Outcome Album
  process_files [] s = done s
  process_files (p ∷ rest) s = do t ← process_file p s; process_files rest t

  unfoldable pub cp_cr2 : List Photo → Tree → Outcome Album
  cp_cr2 photos t = do s ← process_files photos (new_album t); free_all s
