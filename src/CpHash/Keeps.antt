-- ===== src/CpHash/Keeps.antt =====
-- What a copy leaves behind.
use xtest.Base.{
  ℕ, zero, suc, ◌^◌, ◌≤◌, ◌<◌, ◌≡◌, Bool, true, false, ◌==◌, [], ◌∷◌, Option, none, some, length,
  take, Ensures, Bool-cases, Option-cases, inl, inr, arith, refl, ap, ◌∙◌, sym,
}
use xtest.CpHash.Os.{Bytes, FilePath, path_eq, Tree, lookup, Os, IsOs}
use xtest.CpHash.Copy.{
  SourceFile, st_size, dirname, as_int, mkpath, reads, md5sumat, put_file, compare_hash, write_file,
  copy,
}

pub path_eq_refl : (p : FilePath) → path_eq p p ≡ true
path_eq_refl [] = refl
path_eq_refl (x ∷ p) = ground (arith, path_eq_refl p)

path_eq-eq : (p q : FilePath) → path_eq p q ≡ true → p ≡ q
path_eq-eq [] [] h = refl
path_eq-eq [] (y ∷ q) h = cc
path_eq-eq (x ∷ p) [] h = cc
path_eq-eq (x ∷ p) (y ∷ q) h = ground (arith, path_eq-eq p q)

take-all : (xs : Bytes) (n : ℕ) → length xs ≤ n → take n xs ≡ xs
take-all [] zero h = refl
take-all [] (suc n) h = refl
take-all (x ∷ xs) zero h = absurd (omega arith)
take-all (x ∷ xs) (suc n) h = ap (λ t. x ∷ t) (take-all xs n (omega arith))

as_int-size :
    (n size : ℕ)
    → n ≤ size
    → size < 2 ^ 63
    → (as_int n == size) ≡ true
    → (n ≡ size) × (size < 2 ^ 31)
as_int-size n size le small h = ground arith

-- The files of one tree are in the other, unchanged.
pub record Kept (t u : Tree) : Type 0 where
  pub kept : (p : FilePath) (c : Bytes) → lookup p t.files ≡ some c → lookup p u.files ≡ some c

pub Kept-refl : (t u : Tree) → u.files ≡ t.files → Kept t u
Kept-refl t u e = record { kept = λ p c h. ap (lookup p) e ∙ h }

pub Kept-trans : (t u v : Tree) → Kept t u → Kept u v → Kept t v
Kept-trans t u v a b = record { kept = λ p c h. b.kept p c (a.kept p c h) }

put_file-Kept :
    (os : Os) (md5 : Bytes → ℕ) (p : FilePath) (c : Bytes) (t : Tree)
    → lookup p t.files ≡ none
    → Kept t (put_file os md5 p c t)
put_file-Kept os md5 p c t fresh = record {
  kept = λ q d h. elim (Bool-cases (path_eq p q)) [
    | inl same ↦ cc (fresh, h, ap (λ r. lookup r t.files) (path_eq-eq p q same))
    | inr other ↦ rw other h
  ];
}

mkpath-files : (os : Os) (p : FilePath) (t : Tree) → (mkpath os p t).files ≡ t.files
unfolding mkpath
mkpath-files os [] t = refl
mkpath-files os (x ∷ rest) t = elim (Bool-cases (os.fstatat t (x ∷ rest))) [
  | inl there ↦ rw there refl
  | inr new ↦ elim (Bool-cases (os.mkdirat (mkpath os rest t) (x ∷ rest))) [
    | inl made ↦ rw (new, made) (mkpath-files os rest t)
    | inr failed ↦ rw (new, failed) (mkpath-files os rest t)
  ]
]

-- A copy leaves every file of the destination as it was; one that returns 0 was of fewer than 2 ^ 31
-- bytes, has the hash that was asked for, and stands in full under its path.
pub record Copied (md5 : Bytes → ℕ) (f : SourceFile) (hash : ℕ) (t u : Tree) (ok : Bool)
    : Type 0 where
  pub others : Kept t u
  pub whole : ok ≡ true → lookup f.path u.files ≡ some f.content
  pub hashed : ok ≡ true → md5 f.content ≡ hash
  pub small : ok ≡ true → st_size f < 2 ^ 31

module _ (os : Os) (v : IsOs os) (md5 : Bytes → ℕ) (f : SourceFile) (hash : ℕ) (t : Tree) where
  failed-Copied : (u : Tree) → Kept t u → Copied md5 f hash t u false
  failed-Copied u k = record { others = k; whole = λ e. cc; hashed = λ e. cc; small = λ e. cc }

  grown :
      (u : Tree) (c : Bytes)
      → u.files ≡ t.files
      → lookup f.path t.files ≡ none
      → Kept t (put_file os md5 f.path c u)
  grown u c same fresh =
      Kept-trans t u _ (Kept-refl t u same)
        (put_file-Kept os md5 f.path c u (ap (lookup f.path) same ∙ fresh))

  md5sumat_lem : (c : Bytes) (d : ℕ) → md5sumat os md5 f.path c ≡ some d → d ≡ md5 c
  md5sumat_lem c d h = elim (Option-cases (os.reread f.path c)) [
    | inl unread ↦ absurd (ground (arith, unread, h))
    | inr (b, e) ↦ ground (arith, e, h, ap md5 (v.reread_same f.path c b e))
  ]

  compare-Copied :
      (u : Tree) (o : Option ℕ)
      → ((d : ℕ) → o ≡ some d → d ≡ md5 f.content)
      → lookup f.path t.files ≡ none
      → st_size f < 2 ^ 31
      → u.files ≡ t.files
      → Ensures
          (compare_hash os md5 hash o (put_file os md5 f.path f.content u))
          (λ (ok, w). Copied md5 f hash t w ok)
  compare-Copied u none sum fresh le same = tt
  compare-Copied u (some d) sum fresh le same = record {
    others = grown u f.content same fresh;
    whole = λ q. rw (path_eq_refl f.path) refl;
    hashed = λ q. ground (arith, sum d refl, q);
    small = λ q. le;
  }

  write-Copied :
      (u : Tree) (o : Option ℕ)
      → ((n : ℕ) → o ≡ some n → n ≤ st_size f)
      → lookup f.path t.files ≡ none
      → st_size f < 2 ^ 63
      → u.files ≡ t.files
      → Ensures (write_file os md5 f hash o u) (λ (ok, w). Copied md5 f hash t w ok)
  write-Copied u none bound fresh le same = failed-Copied _ (grown u [] same fresh)
  write-Copied u (some n) bound fresh le same = elim (Bool-cases (as_int n == st_size f)) [
    | inl full ↦
        let (e, small) = as_int-size n (st_size f) (bound n refl) le full in
        let all : take n f.content ≡ f.content = take-all f.content n (omega arith) in
        rw (full, all)
          (compare-Copied u (md5sumat os md5 f.path f.content) (md5sumat_lem f.content) fresh small
            same)
    | inr short ↦ rw short (failed-Copied _ (grown u (take n f.content) same fresh))
  ]

  -- For a system whose calls behave as documented and a file of fewer than 2 ^ 63 bytes: whatever is
  -- in the destination before a copy is there after it, unchanged. If the copy returned 0, the whole
  -- file stands under its path, has the hash that was asked for, and is of fewer than 2 ^ 31 bytes.
  pub copy-Copied :
      st_size f < 2 ^ 63 → Ensures (copy os md5 f hash t) (λ (ok, w). Copied md5 f hash t w ok)
  unfolding copy
  copy-Copied le =
      let made = mkpath os (dirname f.path) t in
      let same : made.files ≡ t.files = mkpath-files os (dirname f.path) t in
      elim (Bool-cases (reads f)) [
        | inr unread ↦ rw unread (failed-Copied t (Kept-refl t t refl))
        | inl readable ↦ elim (Bool-cases (os.openat made f.path)) [
          | inr there ↦ rw (readable, there) (failed-Copied made (Kept-refl t made same))
          | inl new ↦
              rw (readable, new)
                (write-Copied made (os.pwrite f.path f.content) (v.pwrite_bounded f.path f.content)
                  (ap (lookup f.path) (sym same) ∙ v.openat_is_new made f.path new) le same)
        ]
      ]
