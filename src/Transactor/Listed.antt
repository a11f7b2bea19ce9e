-- ===== src/Transactor/Listed.antt =====
-- Walks that hand over regular files only, whose hashes can be read.
use xtest.Base.{
  ℕ, ◌+◌, ◌≡◌, Bool, true, false, ◌&&◌, ◌||◌, ◌==◌, if◌then◌else◌, List, [], ◌∷◌, Option, none,
  some, Outcome, done, undefined, ◌>>=◌, Bool-cases, ◌⊎◌, inl, inr, arith, refl, ap, ◌∙◌,
}
use xtest.Base.Sets.{contains, insert, contains-insert}
use xtest.Transactor.{
  DirFile, RefState, no_refs, RefDb, get_value, count_hit, use_freed, process_ref_dir, ref_walk,
  Candidates, process_candidate_dir, candidate_walk, candidates, transactor,
}

-- A regular file as its path and hash.
abbrev pub HashedFile : Type 0
HashedFile = ℕ × ℕ

-- A regular file whose hash is known.
abbrev pub file_of : HashedFile → DirFile
file_of (path, hval) = record { fpath = path; is_regular = true; md5sum = some hval }

abbrev pub files_of : List HashedFile → List DirFile
files_of [] = []
files_of (e ∷ rest) = file_of e ∷ files_of rest

abbrev pub has_value : Option ℕ → Bool
has_value none = false
has_value (some v) = true

-- Some file has the hash of an earlier one (`seen` are those before) and a value in the database.
abbrev pub reuses : RefDb → List ℕ → List HashedFile → Bool
reuses db seen [] = false
reuses db seen ((path, hval) ∷ rest) =
    (contains hval seen && has_value (get_value db path)) || reuses db (insert hval seen) rest

abbrev pub has_hash : ℕ → List HashedFile → Bool
has_hash h [] = false
has_hash h ((path, hval) ∷ rest) = (hval == h) || has_hash h rest

-- The paths of those whose hash no reference file has, the last one first.
abbrev pub missing : List HashedFile → List HashedFile → List ℕ → List ℕ
missing refs [] out = out
missing refs ((path, hval) ∷ rest) out =
    missing refs rest (if has_hash hval refs then out else path ∷ out)

count_hit-set : (h : ℕ) (o : Option ℕ) (s : RefState) → (count_hit h o s).ref_set ≡ s.ref_set
count_hit-set h none s = refl
count_hit-set h (some v) s = ground arith

-- After a walk that is defined, the set has the hashes of before and those of the files.
abbrev Walked : List ℕ → List HashedFile → Outcome RefState → Type 0
Walked seen entries m =
    (t : RefState) × (m ≡ done t)
    × ((h : ℕ) → contains h t.ref_set ≡ (contains h seen || has_hash h entries))

fine-step :
    (db : RefDb) (path hval : ℕ) (s : RefState) (o : Option ℕ)
    → get_value db path ≡ o
    → (contains hval s.ref_set && has_value o) ≡ false
    → (t : RefState) × (process_ref_dir db (file_of (path, hval)) s ≡ done t)
      × (t.ref_set ≡ insert hval s.ref_set)
unfolding process_ref_dir
fine-step db path hval s none e h = elim (Bool-cases (contains hval s.ref_set)) [
  | inl c ↦ (
    record s { ref_n_files = s.ref_n_files + 1; ref_n_duplicate = s.ref_n_duplicate + 1 },
    ground (arith, c, e),
    ground (arith, c),
  )
  | inr c ↦ (
    record s { ref_n_files = s.ref_n_files + 1; ref_set = insert hval s.ref_set },
    ground (arith, c, e),
    refl,
  )
]
fine-step db path hval s (some v) e h =
    let c : contains hval s.ref_set ≡ false = ground (arith, h) in
    let u = record s { ref_n_files = s.ref_n_files + 1; ref_set = insert hval s.ref_set } in
    (count_hit hval (some v) u, ground (arith, c, e), count_hit-set hval (some v) u)

reused-step :
    (db : RefDb) (path hval : ℕ) (s : RefState) (o : Option ℕ)
    → get_value db path ≡ o
    → (contains hval s.ref_set && has_value o) ≡ true
    → process_ref_dir db (file_of (path, hval)) s ≡ undefined
unfolding process_ref_dir
reused-step db path hval s none e h = absurd (ground (arith, h))
reused-step db path hval s (some v) e h =
    let c : contains hval s.ref_set ≡ true = ground (arith, h) in
    rw c (
      ap
        (λ o.
          use_freed o
            (record s { ref_n_files = s.ref_n_files + 1; ref_n_duplicate = s.ref_n_duplicate + 1 }))
        e)

reused-walk :
    (db : RefDb) (entries : List HashedFile) (s : RefState)
    → reuses db s.ref_set entries ≡ true
    → ref_walk db (files_of entries) s ≡ undefined
unfolding ref_walk
reused-walk db [] s h = cc h
reused-walk db ((path, hval) ∷ rest) s h =
    elim (Bool-cases (contains hval s.ref_set && has_value (get_value db path))) [
      | inl c ↦
          ap (λ m. m >>= ref_walk db (files_of rest))
            (reused-step db path hval s (get_value db path) refl c)
      | inr c ↦
          let (t, e, same) = fine-step db path hval s (get_value db path) refl c in
          ap (λ m. m >>= ref_walk db (files_of rest)) e
          ∙ reused-walk db rest t (ap (λ l. reuses db l rest) same ∙ ground (arith, h, c))
    ]

fine-walk :
    (db : RefDb) (entries : List HashedFile) (s : RefState)
    → reuses db s.ref_set entries ≡ false
    → Walked s.ref_set entries (ref_walk db (files_of entries) s)
unfolding ref_walk
fine-walk db [] s h = (s, refl, λ x. ground arith)
fine-walk db ((path, hval) ∷ rest) s h =
    let c : (contains hval s.ref_set && has_value (get_value db path)) ≡ false =
      ground (arith, h) in
    let (t, e, same) = fine-step db path hval s (get_value db path) refl c in
    let (u, g, all) =
      fine-walk db rest t (ap (λ l. reuses db l rest) same ∙ ground (arith, h, c)) in
    (
      u,
      ap (λ m. m >>= ref_walk db (files_of rest)) e ∙ g,
      λ x.
          all x
          ∙ ap (λ l. contains x l || has_hash x rest) same
          ∙ ground (arith, contains-insert x hval s.ref_set),
    )

candidate-walk :
    (set : List ℕ) (refs entries : List HashedFile) (s : Candidates)
    → ((h : ℕ) → contains h set ≡ has_hash h refs)
    → (t : Candidates) × (candidate_walk set (files_of entries) s ≡ done t)
      × (t.misses ≡ missing refs entries s.misses)
unfolding candidate_walk process_candidate_dir
candidate-walk set refs [] s same = (s, refl, refl)
candidate-walk set refs ((path, hval) ∷ rest) s same = elim (Bool-cases (contains hval set)) [
  | inl c ↦
      let (t, e, m) =
        candidate-walk set refs rest (record s { n_records = s.n_records + 1 }) same in
      rw c (t, e, m ∙ ground (arith, same hval, c))
  | inr c ↦
      let (t, e, m) =
        candidate-walk set refs rest
          (record s { n_records = s.n_records + 1; misses = path ∷ s.misses }) same in
      rw c (t, e, m ∙ ground (arith, same hval, c))
]

pub of_files :
    (db : RefDb) (refs entries : List HashedFile)
    → (reuses db [] refs ≡ true) × (transactor db (files_of refs) (files_of entries) ≡ undefined)
      ⊎ (reuses db [] refs ≡ false)
        × (t : Candidates) × (transactor db (files_of refs) (files_of entries) ≡ done t)
        × (t.misses ≡ missing refs entries [])
unfolding transactor
of_files db refs entries = elim (Bool-cases (reuses db [] refs)) [
  | inl h ↦ inl (h, ap (λ m. m >>= candidates (files_of entries)) (reused-walk db refs no_refs h))
  | inr h ↦
      let (s, e, all) = fine-walk db refs no_refs h in
      let (t, g, m) =
        candidate-walk s.ref_set refs entries (record { n_records = 0; misses = [] })
          (λ x. all x ∙ ground arith) in
      inr (h, t, ap (λ m. m >>= candidates (files_of entries)) e ∙ g, m)
]
