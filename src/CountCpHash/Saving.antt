-- ===== src/CountCpHash/Saving.antt =====
-- The counters, against the files that the walk hands over.
use xtest.Base.{
  ℕ, ◌+◌, ◌≡◌, Bool, true, false, not, ◌&&◌, ◌||◌, ◌==◌, if◌then◌else◌, List, [], ◌∷◌, length, done,
  arith, refl, ◌∙◌,
}
use xtest.Base.Sets.{contains, contains-insert, length-insert}
use xtest.CpHash.Copy.{SourceFile, st_size}
use xtest.CpHash.Nftw.{nftw}
use xtest.CpHash.Walk.{is_wanted}
use xtest.CountCpHash.{Tally, no_tally, path_hash, tally, tally_cb, count_cp_hash}

-- The files that pass a test.
abbrev pub those : (SourceFile → Bool) → List SourceFile → List SourceFile
those test [] = []
those test (f ∷ rest) = if test f then f ∷ those test rest else those test rest

abbrev pub total : List SourceFile → ℕ
total [] = 0
total (f ∷ rest) = st_size f + total rest

abbrev pub is_hashed : SourceFile → Bool
is_hashed f = is_wanted f && not (path_hash f == 0)

abbrev pub is_refused : SourceFile → Bool
is_refused f = is_wanted f && (path_hash f == 0)

abbrev pub has_hash : ℕ → List SourceFile → Bool
has_hash h [] = false
has_hash h (f ∷ rest) = (path_hash f == h) || has_hash h rest

-- The files whose hash no earlier one has, `seen` being the hashes before.
abbrev pub firsts : List ℕ → List SourceFile → List SourceFile
firsts seen [] = []
firsts seen (f ∷ rest) =
    let again = firsts seen rest in
    let more = firsts (path_hash f ∷ seen) rest in
    if contains (path_hash f) seen then again else f ∷ more

fold : List SourceFile → Tally → Tally
fold [] s = s
fold (f ∷ rest) s = fold rest (tally f s)

nftw-fold :
    (files : List SourceFile) (s : Tally) → nftw tally_cb files s ≡ done (true, fold files s)
unfolding nftw tally_cb fold
nftw-fold [] s = refl
nftw-fold (f ∷ rest) s = nftw-fold rest (tally f s)

-- What a walk adds to the counters.
pub record Counted (files : List SourceFile) (s t : Tally) : Type 0 where
  pub files_added : t.n_files ≡ s.n_files + length (those is_wanted files)
  pub bytes_added : t.n_bytes ≡ s.n_bytes + total (those is_wanted files)
  pub told :
      t.n_duplicates + t.n_unique + length (those is_refused files) + s.n_files
      ≡ s.n_duplicates + s.n_unique + t.n_files
  pub distinct : t.n_unique + length s.ref_hashes ≡ s.n_unique + length t.ref_hashes
  pub unique_bytes :
      t.n_bytes_unique ≡ s.n_bytes_unique + total (firsts s.ref_hashes (those is_hashed files))
  pub known :
      (h : ℕ)
      → contains h t.ref_hashes ≡ (contains h s.ref_hashes || has_hash h (those is_hashed files))

step-Counted : (f : SourceFile) (s : Tally) → Counted (f ∷ []) s (tally f s)
unfolding tally
step-Counted f s = record {
  files_added = ground arith;
  bytes_added = ground arith;
  told = ground arith;
  distinct = ground (arith, length-insert (path_hash f) s.ref_hashes);
  unique_bytes = ground arith;
  known = λ h. ground (arith, contains-insert h (path_hash f) s.ref_hashes);
}

step-firsts :
    (f : SourceFile) (rest : List SourceFile) (s : Tally)
    → (tally f s).n_bytes_unique + total (firsts (tally f s).ref_hashes (those is_hashed rest))
      ≡ s.n_bytes_unique + total (firsts s.ref_hashes (those is_hashed (f ∷ rest)))
unfolding tally
step-firsts f rest s = ground arith

fold-Counted : (files : List SourceFile) (s : Tally) → Counted files s (fold files s)
unfolding fold
fold-Counted [] s = record {
  files_added = omega arith;
  bytes_added = omega arith;
  told = omega arith;
  distinct = omega arith;
  unique_bytes = ground arith;
  known = λ h. ground arith;
}
fold-Counted (f ∷ rest) s =
    let a = step-Counted f s in
    let b = fold-Counted rest (tally f s) in
    record {
      files_added = ground (arith, a.files_added, b.files_added);
      bytes_added = ground (arith, a.bytes_added, b.bytes_added);
      told = ground (arith, a.told, b.told);
      distinct = omega (arith, a.distinct, b.distinct);
      unique_bytes = b.unique_bytes ∙ step-firsts f rest s;
      known = λ h. ground (arith, a.known h, b.known h);
    }

-- For any files, the walk returns 0, and of the regular files that are not empty: `nFiles` is their
-- number and `nBytes` their size; each is unique, a duplicate, or one whose hash is 0, as that of a
-- file that does not open; the set has exactly the other hashes, and `nUnique` elements; and
-- `nBytesUnique` is the size of the first file of each hash.
pub count_cp_hash_lem :
    (files : List SourceFile)
    → (t : Tally) × (count_cp_hash files ≡ done (true, t)) × Counted files no_tally t
unfolding count_cp_hash
count_cp_hash_lem files =
    (fold files no_tally, nftw-fold files no_tally, fold-Counted files no_tally)
