-- ===== src/CountCpHash.antt =====
-- countcphash.cc: counts what removing duplicates from a tree would save.
pub mod Saving
pub mod Tests
use xtest.Base.{ℕ, ◌+◌, Bool, true, false, ◌==◌, if◌then◌else◌, List, [], Outcome, done}
use xtest.Base.Sets.{contains, insert}
use xtest.Hashes.{fnv1a_32}
use xtest.CpHash.Copy.{SourceFile, st_size, reads}
use xtest.CpHash.Nftw.{nftw}
use xtest.CpHash.Walk.{is_wanted}

-- The static counters.
pub record Tally : Type 0 where
  pub n_files : ℕ
  pub n_duplicates : ℕ
  pub n_unique : ℕ
  pub n_bytes : ℕ
  pub n_bytes_unique : ℕ
  pub ref_hashes : List ℕ

abbrev pub no_tally : Tally
no_tally = record {
  n_files = 0;
  n_duplicates = 0;
  n_unique = 0;
  n_bytes = 0;
  n_bytes_unique = 0;
  ref_hashes = [];
}

-- `fnvpath`: 0 where the file does not open or map.
unfoldable pub path_hash : SourceFile → ℕ
path_hash f = if reads f then fnv1a_32 f.content else 0

abbrev pub see_file : SourceFile → Tally → Tally
see_file f s = record s { n_files = s.n_files + 1; n_bytes = s.n_bytes + st_size f }

abbrev pub see_hash : ℕ → ℕ → Tally → Tally
see_hash size hash s =
    if contains hash s.ref_hashes
    then record s { n_duplicates = s.n_duplicates + 1 }
    else record s {
      ref_hashes = insert hash s.ref_hashes;
      n_unique = s.n_unique + 1;
      n_bytes_unique = s.n_bytes_unique + size;
    }

-- What `cb` leaves. It always returns 0.
unfoldable pub tally : SourceFile → Tally → Tally
tally f s =
    let seen = see_file f s in
    let noted = see_hash (st_size f) (path_hash f) seen in
    if is_wanted f then (if path_hash f == 0 then seen else noted) else s

unfoldable pub tally_cb : SourceFile → Tally → Outcome (Bool × Tally)
tally_cb f s = done (true, tally f s)

unfoldable pub count_cp_hash : List SourceFile → Outcome (Bool × Tally)
count_cp_hash files = nftw tally_cb files no_tally
