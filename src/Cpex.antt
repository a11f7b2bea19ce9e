-- ===== src/Cpex.antt =====
-- cpex.cc: copies to B the files of a source tree that A does not have. `mkpath`, `copy` and what they
-- call are word for word those of cphash.cc.
pub mod Placed
pub mod Tests
use xtest.Base.{
  ℕ, ◌+◌, Bool, true, false, ◌==◌, if◌then◌else◌, List, [], Option, none, some, Outcome, done,
  undefined, ◌>>=◌,
}
use xtest.Base.Sets.{contains, insert}
use xtest.CpHash.Os.{Bytes, Tree, Os}
use xtest.CpHash.Copy.{SourceFile, st_size, md5sum, fnvpath, copy}
use xtest.CpHash.Nftw.{nftw}
use xtest.CpHash.Walk.{is_wanted}

-- The static counters, A's hashes, and the tree of B.
pub record Copier : Type 0 where
  pub n_files : ℕ
  pub n_duplicates : ℕ
  pub n_unique : ℕ
  pub n_disaster : ℕ
  pub dst_a_hashes_fnv : List ℕ
  pub dst_a_hashes : List ℕ
  pub n_bytes_src : ℕ
  pub n_bytes_copied : ℕ
  pub n_files_copied : ℕ
  pub dst_b : Tree

abbrev pub no_files : Tree → Copier
no_files t = record {
  n_files = 0;
  n_duplicates = 0;
  n_unique = 0;
  n_disaster = 0;
  dst_a_hashes_fnv = [];
  dst_a_hashes = [];
  n_bytes_src = 0;
  n_bytes_copied = 0;
  n_files_copied = 0;
  dst_b = t;
}

abbrev pub count_file : SourceFile → Copier → Copier
count_file f s = record s { n_files = s.n_files + 1; n_bytes_src = s.n_bytes_src + st_size f }

abbrev pub count_copy : SourceFile → Copier → Copier
count_copy f s = record s {
  n_unique = s.n_unique + 1;
  n_files_copied = s.n_files_copied + 1;
  n_bytes_copied = s.n_bytes_copied + st_size f;
}

abbrev pub with_tree : Copier → Bool × Tree → Outcome (Bool × Copier)
with_tree s (ok, t) = done (ok, record s { dst_b = t })

module _ (os : Os) (md5 : Bytes → ℕ) where
  abbrev pub in_a : SourceFile → Copier → Outcome (Bool × Copier)
  in_a f s =
      if contains (fnvpath os md5 f) s.dst_a_hashes_fnv
      then done (true, record s { n_duplicates = s.n_duplicates + 1 })
      else done (false, record s { n_disaster = s.n_disaster + 1 })

  abbrev pub visit1 : SourceFile → Option ℕ → Copier → Outcome (Bool × Copier)
  visit1 f none s = undefined
  visit1 f (some hash) s =
      let t = count_file f s in
      if contains hash s.dst_a_hashes
      then in_a f t
      else (do r ← copy os md5 f hash s.dst_b; with_tree (count_copy f t) r)

  unfoldable pub cb1 : SourceFile → Copier → Outcome (Bool × Copier)
  cb1 f s = if is_wanted f then visit1 f (md5sum os md5 f) s else done (true, s)

  abbrev pub note_a : SourceFile → Option ℕ → Copier → Outcome (Bool × Copier)
  note_a f none s = undefined
  note_a f (some hash) s = done (
    true,
    record s {
      dst_a_hashes = insert hash s.dst_a_hashes;
      dst_a_hashes_fnv = insert (fnvpath os md5 f) s.dst_a_hashes_fnv;
    },
  )

  unfoldable pub prefill_dst_a : SourceFile → Copier → Outcome (Bool × Copier)
  prefill_dst_a f s = if is_wanted f then note_a f (md5sum os md5 f) s else done (true, s)

  -- `main` after `opendir`; it prints whether the second walk returned 0.
  unfoldable pub run_cpex : List SourceFile → List SourceFile → Copier → Outcome (Bool × Copier)
  run_cpex dst_a src s = do r ← nftw prefill_dst_a dst_a s; nftw cb1 src r.1
