-- ===== src/CpHash/Counts.antt =====
-- The counters that `main` prints.
use xtest.Base.{
  ℕ, ◌+◌, ◌≡◌, Bool, false, List, Option, none, some, length, Outcome, done, undefined, timeout,
  ◌>>=◌, Ensures, Ensures-if, Ensures-done, arith,
}
use xtest.Base.Sets.{contains, length-insert}
use xtest.CpHash.Os.{Bytes, FilePath, Tree, Os}
use xtest.CpHash.Copy.{SourceFile, md5sum, fnvpath, copy}
use xtest.CpHash.Walk.{State, is_wanted, counted, noted_new, copied, known_hash, visit, cb}
use xtest.CpHash.Nftw.{nftw, All, nftw-Ensures, nftw-Returns}
use xtest.CpHash.Main.{IsReady, cb-Returns}

-- `before` is the number of hashes that were known before the walk.
pub record IsCounted (before : ℕ) (s : State) : Type 0 where
  pub told : s.n_files ≡ s.n_duplicates + s.n_unique + s.n_disaster
  pub as_copied : s.n_files_copied ≡ s.n_unique
  pub distinct : length s.ref_hashes ≡ before + s.n_unique

module _ (os : Os) (md5 : Bytes → ℕ) (before : ℕ) where
  known-IsCounted :
      (f : SourceFile) (s : State)
      → IsCounted before s
      → Ensures (known_hash os md5 f (counted f s)) (λ (ok, t). IsCounted before t)
  known-IsCounted f s c =
      Ensures-if (contains (fnvpath os md5 f) s.ref_hashes_fnv) _ _ _
        (λ m. omega (arith, c.told, c.as_copied, c.distinct))
        (λ m. omega (arith, c.told, c.as_copied, c.distinct))

  new-IsCounted :
      (f : SourceFile) (hash : ℕ) (s : State) (o : Outcome (Bool × Tree))
      → contains hash s.ref_hashes ≡ false
      → IsCounted before s
      → Ensures
          (o >>= copied os md5 (noted_new os md5 f hash (counted f s)))
          (λ (ok, t). IsCounted before t)
  new-IsCounted f hash s (done (ok, u)) new c = record {
    told = omega (arith, c.told);
    as_copied = omega (arith, c.as_copied);
    distinct = ground (arith, c.distinct, length-insert hash s.ref_hashes, new);
  }
  new-IsCounted f hash s undefined new c = tt
  new-IsCounted f hash s timeout new c = tt

  visit-IsCounted :
      (f : SourceFile) (o : Option ℕ) (s : State)
      → IsCounted before s
      → Ensures (visit os md5 f o s) (λ (ok, t). IsCounted before t)
  visit-IsCounted f none s c = tt
  visit-IsCounted f (some hash) s c =
      Ensures-if (contains hash s.ref_hashes) _ _ _ (λ old. known-IsCounted f s c)
        (λ new. new-IsCounted f hash s (copy os md5 f hash s.tree) new c)

  cb-IsCounted :
      (f : SourceFile) (s : State)
      → IsReady f
      → IsCounted before s
      → Ensures (cb os md5 f s) (λ (ok, t). IsCounted before t)
  unfolding cb
  cb-IsCounted f s any c =
      Ensures-if (is_wanted f) _ _ _ (λ w. visit-IsCounted f (md5sum os md5 f) s c) (λ skipped. c)

-- Where every file opens, maps and reads back, a walk by `cb` from a state whose counters are right
-- returns, whether it ended early or not, and they are right again: each file counted is a duplicate,
-- unique or a collision, as many files are counted as copied as are unique, and the set has grown by
-- the number of the unique ones. A file whose copy failed counts as copied all the same.
pub counts_agree :
    (os : Os) (md5 : Bytes → ℕ) (before : ℕ) (files : List SourceFile) (s : State)
    → ((p : FilePath) (c : Bytes) → (b : Bytes) × (os.reread p c ≡ some b))
    → All IsReady files
    → IsCounted before s
    → (ok : Bool) × (t : State) × (nftw (cb os md5) files s ≡ done (ok, t)) × IsCounted before t
counts_agree os md5 before files s shown ready c =
    let ((ok, t), e) = nftw-Returns (cb os md5) IsReady (cb-Returns os md5 shown) files s ready in
    (
      ok,
      t,
      e,
      Ensures-done _ (ok, t) (λ (ok, t). IsCounted before t) e
          (nftw-Ensures (cb os md5) IsReady (IsCounted before) (cb-IsCounted os md5 before) files s
            ready c),
    )
