-- ===== src/Cpcr2/Once.antt =====
-- The counters after all the files.
use xtest.Base.{
  ℕ, ◌+◌, ◌≤◌, ◌<◌, ◌≡◌, Bool, true, false, not, ◌&&◌, ltb, ◌==◌, if◌then◌else◌, List, [], ◌∷◌,
  length, some, Outcome, done, require, ◌>>=◌, Bool-cases, inl, inr, arith, refl, ap, ◌∙◌, subst,
}
use xtest.CpHash.Os.{Bytes, Tree}
use xtest.Cp.{After}
use xtest.Cp.Effects.{copy_file_hash_lem, Total-if}
use xtest.Cp.Whole.{copy_file_lem}
use xtest.Cpcr2.Name.{has_slash, dcp_name}
use xtest.Cpcr2.Fits.{length-dcp_name}
use xtest.Cpcr2.{
  Photo, Held, Album, new_album, is_held, is_wanted_photo, count_err, keep_jpg, keep_cr2,
  first_seen, item, process_file, process_files, any_freed, free_all, cp_cr2,
}

-- A photo whose hash can be read, whose name fits, and whose copies can be written and read back, the
-- first one with the same hash.
pub record IsFine (md5 : Bytes → ℕ) (dst : List ℕ) (p : Photo) : Type 0 where
  pub hash : ℕ
  pub hashes : p.md5sum ≡ some hash
  pub slash : has_slash p.fpath ≡ true
  pub short : length dst + length p.fpath < 998
  pub cr2_fallocates : p.cr2.fallocates ≡ true
  pub cr2_bytes : Bytes
  pub cr2_rereads : p.cr2.reread p.cr2.content ≡ some cr2_bytes
  pub cr2_matches : (hash == md5 cr2_bytes) ≡ true
  pub jpg_fallocates : p.jpg.fallocates ≡ true
  pub jpg_rereads : p.jpg.reread p.jpg.content ≡ some p.jpg.content

abbrev pub AllFine : (Bytes → ℕ) → List ℕ → List Photo → Type 0
AllFine md5 dst [] = Unit {0}
AllFine md5 dst (p ∷ rest) = IsFine md5 dst p × AllFine md5 dst rest

abbrev pub is_distinct : List Held → Bool
is_distinct [] = true
is_distinct (x ∷ rest) = not (is_held x.hash rest) && is_distinct rest

abbrev pub wanted_photos : List Photo → ℕ
wanted_photos [] = 0
wanted_photos (p ∷ rest) = (if is_wanted_photo p then 1 else 0) + wanted_photos rest

pub record Tallied (before : ℕ) (t : Album) : Type 0 where
  pub all : t.n_files ≡ before
  pub told : t.n_files ≡ t.n_unique + t.n_duplicate
  pub kept : t.n_unique ≡ length t.md5set
  pub distinct : is_distinct t.md5set ≡ true
  pub clean : any_freed t.md5set ≡ false
  pub numbered : t.seq ≡ t.n_unique
  pub cr2_errors : t.n_cr2_err ≤ t.n_unique
  pub jpg_errors : t.n_jpg_err ≤ t.n_unique

require_both :
    {A : Type 0} (a b : Bool) (m : Outcome A) → a ≡ true → b ≡ true → require (a && b) m ≡ m
require_both a b m p q = rw (p, q) refl

module _ (md5 : Bytes → ℕ) (dst : List ℕ) where
  fits_lem :
      (p : Photo) (n : ℕ)
      → IsFine md5 dst p
      → ltb (length (dcp_name dst p.fpath n (67 ∷ 82 ∷ 50 ∷ []))) 1024 ≡ true
  fits_lem p n fine =
      let le = length-dcp_name dst p.fpath n (67 ∷ 82 ∷ 50 ∷ []) in ground (arith, le, fine.short)

  keep-Tallied :
      (p : Photo) (hval n before : ℕ) (s : Album) (r : After)
      → IsFine md5 dst p
      → is_held hval s.md5set ≡ false
      → r.hash_freed ≡ false
      → Tallied before s
      → (u : Album) × (keep_cr2 md5 dst p hval n
            (record s { n_files = s.n_files + 1; n_unique = s.n_unique + 1; seq = s.seq + 1 })
            r
          ≡ done u)
        × Tallied (before + 1) u
  keep-Tallied p hval n before s r fine new whole c =
      let (q, e, placed) =
        copy_file_lem md5 p.jpg (dcp_name dst p.fpath n (74 ∷ 80 ∷ 71 ∷ [])) r.tree
          fine.jpg_fallocates fine.jpg_rereads in
      let x = record s {
        n_files = s.n_files + 1;
        n_unique = s.n_unique + 1;
        seq = s.seq + 1;
        md5set = record { hash = hval; freed = r.hash_freed } ∷ s.md5set;
        n_cr2_err = count_err r.ok s.n_cr2_err;
      } in
      (
        record x { n_jpg_err = count_err q.ok s.n_jpg_err; tree = q.tree },
        ap (λ o. o >>= keep_jpg md5 dst x) e,
        record {
          all = omega (arith, c.all);
          told = omega (arith, c.told);
          kept = omega (arith, c.kept);
          distinct = ground (arith, new, c.distinct);
          clean = ground (arith, whole, c.clean);
          numbered = omega (arith, c.numbered);
          cr2_errors = ground (arith, c.cr2_errors);
          jpg_errors = ground (arith, c.jpg_errors);
        },
      )

  first-Tallied :
      (p : Photo) (hval before : ℕ) (s : Album)
      → (fine : IsFine md5 dst p) → hval ≡ fine.hash
      → is_held hval s.md5set ≡ false
      → Tallied before s
      → (u : Album) × (first_seen md5 dst p hval (record s { n_files = s.n_files + 1 }) ≡ done u)
        × Tallied (before + 1) u
  first-Tallied p hval before s fine same new c =
      let name = dcp_name dst p.fpath s.seq (67 ∷ 82 ∷ 50 ∷ []) in
      let (r, e, left) =
        copy_file_hash_lem md5 p.cr2 name hval s.tree fine.cr2_bytes fine.cr2_fallocates
          fine.cr2_rereads in
      let match : (hval == md5 fine.cr2_bytes) ≡ true =
        ap (λ (h : ℕ). h == md5 fine.cr2_bytes) same ∙ fine.cr2_matches in
      let whole : r.hash_freed ≡ false = ground (arith, left.frees, match) in
      let fits : ltb (length name) 1024 ≡ true = fits_lem p s.seq fine in
      let (u, g, d) = keep-Tallied p hval s.seq before s r fine new whole c in
      (
        u,
        require_both _ _ _ fine.slash fits
            ∙ (ap
                  (λ o.
                    o
                    >>= keep_cr2 md5 dst p hval s.seq (record s {
                      n_files = s.n_files + 1;
                      n_unique = s.n_unique + 1;
                      seq = s.seq + 1;
                    }))
                  e
                ∙ g),
        d,
      )

  item-Tallied :
      (p : Photo) (before : ℕ) (s : Album)
      → (fine : IsFine md5 dst p) → Tallied before s
      → (u : Album) × (item md5 dst p (some fine.hash) (record s { n_files = s.n_files + 1 })
          ≡ done u)
        × Tallied (before + 1) u
  item-Tallied p before s fine c = rw (c.clean) (
      Total-if (is_held fine.hash s.md5set) _ _ _
        (λ seen. (
          record s { n_files = s.n_files + 1; n_duplicate = s.n_duplicate + 1 },
          refl,
          record {
            all = omega (arith, c.all);
            told = omega (arith, c.told);
            kept = c.kept;
            distinct = c.distinct;
            clean = c.clean;
            numbered = c.numbered;
            cr2_errors = c.cr2_errors;
            jpg_errors = c.jpg_errors;
          },
        ))
        (λ new. first-Tallied p fine.hash before s fine refl new c))

  skipped-Tallied : (before : ℕ) (s : Album) → Tallied before s → Tallied (before + 0) s
  skipped-Tallied before s c = subst (λ n. Tallied n s) (omega arith) c

  file-Tallied :
      (p : Photo) (before : ℕ) (s : Album)
      → IsFine md5 dst p
      → Tallied before s
      → (u : Album) × (process_file md5 dst p s ≡ done u)
        × Tallied (before + (if is_wanted_photo p then 1 else 0)) u
  unfolding process_file
  file-Tallied p before s fine c = elim (Bool-cases (is_wanted_photo p)) [
    | inr skipped ↦ rw skipped (s, refl, skipped-Tallied before s c)
    | inl wanted ↦
        let (u, e, d) = item-Tallied p before s fine c in
        rw wanted
          (u, ap (λ o. item md5 dst p o (record s { n_files = s.n_files + 1 })) fine.hashes ∙ e, d)
  ]

  pub files-Tallied :
      (photos : List Photo) (before : ℕ) (s : Album)
      → AllFine md5 dst photos
      → Tallied before s
      → (u : Album) × (process_files md5 dst photos s ≡ done u)
        × Tallied (before + wanted_photos photos) u
  unfolding process_files
  files-Tallied [] before s fine c = (s, refl, skipped-Tallied before s c)
  files-Tallied (p ∷ rest) before s (fine, others) c =
      let (t, e, d) = file-Tallied p before s fine c in
      let (u, g, r) =
        files-Tallied rest (before + (if is_wanted_photo p then 1 else 0)) t others d in
      (
        u,
        ap (λ o. o >>= process_files md5 dst rest) e ∙ g,
        subst (λ n. Tallied n u) (omega arith) r,
      )

-- Where each file's MD5 sum can be read, its path has a slash and is with the destination's shorter
-- than 998 characters, and the copies can be allocated and read back, that of the raw file with the
-- same hash: no name overflows its buffer, all items are processed, no string of the set is freed
-- before the end, and the program comes to its end. Then `nFiles` is the number of non-empty files
-- whose first ".CR2" ends their path; each of them is unique or a duplicate; the set has one string
-- for each unique one, no two of the same hash; as many numbers were given out; and there are at most
-- as many errors of each kind.
pub process_files_lem :
    (md5 : Bytes → ℕ) (dst : List ℕ) (photos : List Photo) (t : Tree)
    → AllFine md5 dst photos
    → (u : Album) × (process_files md5 dst photos (new_album t) ≡ done u)
      × (cp_cr2 md5 dst photos t ≡ done (record u { md5set = [] }))
      × Tallied (wanted_photos photos) u
unfolding cp_cr2
process_files_lem md5 dst photos t fine =
    let (u, e, c) = files-Tallied md5 dst photos 0 (new_album t) fine record {
      all = refl;
      told = refl;
      kept = refl;
      distinct = refl;
      clean = refl;
      numbered = refl;
      cr2_errors = omega arith;
      jpg_errors = omega arith;
    } in
    let freed : free_all u ≡ done (record u { md5set = [] }) = rw (c.clean) refl in
    (u, e, ap (λ m. m >>= free_all) e ∙ freed, subst (λ n. Tallied n u) (omega arith) c)
