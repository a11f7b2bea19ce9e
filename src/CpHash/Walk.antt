-- ===== src/CpHash/Walk.antt =====
-- `cb`, `prefill` and `main`.
use xtest.Base.{
  ℕ, ◌+◌, Bool, true, false, not, ◌&&◌, ◌==◌, if◌then◌else◌, List, [], Option, none, some, Outcome,
  done, undefined, ◌>>=◌,
}
use xtest.Base.Sets.{contains, insert}
use xtest.CpHash.Os.{Bytes, Tree, Os}
use xtest.CpHash.Nftw.{nftw}
use xtest.CpHash.Copy.{SourceFile, st_size, md5sum, fnvpath, copy}

-- The static counters and sets, and the destination.
pub record State : Type 0 where
  pub n_files : ℕ
  pub n_duplicates : ℕ
  pub n_unique : ℕ
  pub n_disaster : ℕ
  pub ref_hashes_fnv : List ℕ
  pub ref_hashes : List ℕ
  pub n_bytes_src : ℕ
  pub n_bytes_copied : ℕ
  pub n_files_copied : ℕ
  pub tree : Tree

abbrev pub is_wanted : SourceFile → Bool
is_wanted f = f.is_file && (f.is_regular && not (st_size f == 0))

abbrev pub counted : SourceFile → State → State
counted f s = record s { n_files = s.n_files + 1; n_bytes_src = s.n_bytes_src + st_size f }

module _ (os : Os) (md5 : Bytes → ℕ) where
  abbrev pub copied : State → Bool × Tree → Outcome (Bool × State)
  copied s (ok, t) = done (ok, record s { tree = t })

  -- A hash that is known.
  abbrev pub known_hash : SourceFile → State → Outcome (Bool × State)
  known_hash f s =
      if contains (fnvpath os md5 f) s.ref_hashes_fnv
      then done (true, record s { n_duplicates = s.n_duplicates + 1 })
      else done (false, record s { n_disaster = s.n_disaster + 1 })

  abbrev pub noted_new : SourceFile → ℕ → State → State
  noted_new f hash s = record s {
    ref_hashes = insert hash s.ref_hashes;
    ref_hashes_fnv = insert (fnvpath os md5 f) s.ref_hashes_fnv;
    n_unique = s.n_unique + 1;
    n_files_copied = s.n_files_copied + 1;
    n_bytes_copied = s.n_bytes_copied + st_size f;
  }

  -- A hash that is new: it is noted before the copy is made.
  abbrev pub new_hash : SourceFile → ℕ → State → Outcome (Bool × State)
  new_hash f hash s = do r ← copy os md5 f hash s.tree; copied (noted_new f hash s) r

  -- `std::string hash(s)` on the null pointer is undefined.
  abbrev pub visit : SourceFile → Option ℕ → State → Outcome (Bool × State)
  visit f none s = undefined
  visit f (some hash) s =
      let t = counted f s in
      if contains hash s.ref_hashes then known_hash f t else new_hash f hash t

  -- Whether it returned 0.
  unfoldable pub cb : SourceFile → State → Outcome (Bool × State)
  cb f s = if is_wanted f then visit f (md5sum os md5 f) s else done (true, s)

  abbrev pub note : SourceFile → Option ℕ → State → Outcome (Bool × State)
  note f none s = undefined
  note f (some hash) s = done (
    true,
    record s {
      ref_hashes = insert hash s.ref_hashes;
      ref_hashes_fnv = insert (fnvpath os md5 f) s.ref_hashes_fnv;
    },
  )

  unfoldable pub prefill : SourceFile → State → Outcome (Bool × State)
  prefill f s = if is_wanted f then note f (md5sum os md5 f) s else done (true, s)

-- `main` after `opendir`: the destination's files, then the source's. It prints whether the second
-- walk returned 0, and returns 0 in any case.
unfoldable pub run :
    Os → (Bytes → ℕ) → List SourceFile → List SourceFile → State → Outcome (Bool × State)
run os md5 dst src s = do r ← nftw (prefill os md5) dst s; nftw (cb os md5) src r.1

-- The static variables before `main`.
abbrev pub fresh : Tree → State
fresh t = record {
  n_files = 0;
  n_duplicates = 0;
  n_unique = 0;
  n_disaster = 0;
  ref_hashes_fnv = [];
  ref_hashes = [];
  n_bytes_src = 0;
  n_bytes_copied = 0;
  n_files_copied = 0;
  tree = t;
}
