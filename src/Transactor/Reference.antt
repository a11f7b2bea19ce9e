-- ===== src/Transactor/Reference.antt =====
-- When the run is defined, and what it lists.
use mathlib.Core.Path.{fun_ext}
use xtest.Base.{
  ℕ, ◌≡◌, true, false, List, [], ◌∷◌, Option, done, undefined, ◌>>=◌, ◌⊎◌, inl, inr, refl, ap, ◌∙◌,
}
use xtest.Transactor.{
  DirFile, RefState, no_refs, RefDb, process_ref_dir, ref_walk, Candidates, process_candidate_dir,
  candidate_walk, candidates, transactor,
}
use xtest.Transactor.Listed.{HashedFile, file_of, files_of, reuses, missing, of_files}

-- What `ftw` hands over: a regular file whose hash is known, or another entry such as a directory.
pub data Visit : Type 0 where
  hashed : ℕ → ℕ → Visit
  other : ℕ → Option ℕ → Visit

abbrev pub visit_of : Visit → DirFile
visit_of (hashed path hval) = file_of (path, hval)
visit_of (other path sum) = record { fpath = path; is_regular = false; md5sum = sum }

abbrev pub walk_of : List Visit → List DirFile
walk_of [] = []
walk_of (v ∷ rest) = visit_of v ∷ walk_of rest

abbrev pub hashed_of : List Visit → List HashedFile
hashed_of [] = []
hashed_of (hashed path hval ∷ rest) = (path, hval) ∷ hashed_of rest
hashed_of (other path sum ∷ rest) = hashed_of rest

refs-passed_over :
    (db : RefDb) (vs : List Visit) (s : RefState)
    → ref_walk db (walk_of vs) s ≡ ref_walk db (files_of (hashed_of vs)) s
unfolding ref_walk process_ref_dir
refs-passed_over db [] s = refl
refs-passed_over db (hashed path hval ∷ rest) s =
    ap (λ k. process_ref_dir db (file_of (path, hval)) s >>= k)
      (fun_ext (λ t. refs-passed_over db rest t))
refs-passed_over db (other path sum ∷ rest) s = refs-passed_over db rest s

candidates-passed_over :
    (set : List ℕ) (vs : List Visit) (s : Candidates)
    → candidate_walk set (walk_of vs) s ≡ candidate_walk set (files_of (hashed_of vs)) s
unfolding candidate_walk process_candidate_dir
candidates-passed_over set [] s = refl
candidates-passed_over set (hashed path hval ∷ rest) s =
    ap (λ k. process_candidate_dir set (file_of (path, hval)) s >>= k)
      (fun_ext (λ t. candidates-passed_over set rest t))
candidates-passed_over set (other path sum ∷ rest) s = candidates-passed_over set rest s

walks-passed_over :
    (db : RefDb) (refs entries : List Visit)
    → transactor db (walk_of refs) (walk_of entries)
      ≡ transactor db (files_of (hashed_of refs)) (files_of (hashed_of entries))
unfolding transactor
walks-passed_over db refs entries =
    ap (λ m. m >>= candidates (walk_of entries)) (refs-passed_over db refs no_refs)
    ∙ ap (λ k. ref_walk db (files_of (hashed_of refs)) no_refs >>= k)
        (fun_ext
          (λ s. candidates-passed_over s.ref_set entries (record { n_records = 0; misses = [] })))

-- For walks over regular files whose hashes can be read, with any other entries, such as directories,
-- between them. If a regular reference file has the hash of an earlier one and a value in the database,
-- the run is undefined. If not, the run ends, and the paths that it prints as misses are those of the
-- regular candidates whose hash no regular reference file has.
pub transactor_lem :
    (db : RefDb) (refs entries : List Visit)
    → (reuses db [] (hashed_of refs) ≡ true)
        × (transactor db (walk_of refs) (walk_of entries) ≡ undefined)
      ⊎ (reuses db [] (hashed_of refs) ≡ false)
        × (t : Candidates) × (transactor db (walk_of refs) (walk_of entries) ≡ done t)
        × (t.misses ≡ missing (hashed_of refs) (hashed_of entries) [])
transactor_lem db refs entries =
    let same = walks-passed_over db refs entries in
    elim (of_files db (hashed_of refs) (hashed_of entries)) [
      | inl (h, e) ↦ inl (h, same ∙ e)
      | inr (h, t, e, m) ↦ inr (h, t, same ∙ e, m)
    ]
