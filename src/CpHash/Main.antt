-- ===== src/CpHash/Main.antt =====
-- The whole program: the destination is walked first, then the source.
use xtest.Base.{
  ℕ, ◌≡◌, Bool, true, false, ◌==◌, List, Option, none, some, take, Outcome, done, undefined,
  timeout, ◌>>=◌, Ensures, Ensures-if, Ensures-weaken, Ensures-done, Returns, Returns-if,
  Returns-bind, Bool-cases, ◌⊎◌, inl, inr, arith, refl, ap, ◌∙◌, sym,
}
use xtest.Base.Sets.{contains}
use xtest.CpHash.Os.{Bytes, FilePath, Tree, lookup, Os, IsOs}
use xtest.CpHash.Copy.{
  SourceFile, dirname, mkpath, as_int, put_file, compare_hash, md5sumat, write_file, st_size, reads,
  md5sum, fnvpath, copy,
}
use xtest.CpHash.Walk.{
  State, counted, noted_new, copied, visit, is_wanted, cb, note, prefill, run, fresh,
}
use xtest.CpHash.Keeps.{Kept, Kept-refl, Kept-trans}
use xtest.CpHash.Nftw.{nftw, All, nftw-Ensures, nftw-Returns}
use xtest.CpHash.Backup.{IsBacked, AllBacked, IsSmall, Walked, nftw-Walked, contains-insert_cases}

-- A file that the tree holds.
abbrev pub Held : Tree → SourceFile → Type 0
Held t f = lookup f.path t.files ≡ some f.content

record Prefilled (md5 : Bytes → ℕ) (t : Tree) (s : State) : Type 0 where
  pub same : s.tree ≡ t
  pub still : IsBacked md5 s

module _ (os : Os) (md5 : Bytes → ℕ) (t : Tree) where
  note-Prefilled :
      (f : SourceFile) (s : State) (o : Option ℕ)
      → ((h : ℕ) → o ≡ some h → h ≡ md5 f.content)
      → Held t f
      → Prefilled md5 t s
      → Ensures (note os md5 f o s) (λ (ok, u). Prefilled md5 t u)
  note-Prefilled f s none sum held p = tt
  note-Prefilled f s (some hash) sum held p = record {
    same = p.same;
    still = record {
      backed = λ h m. elim (contains-insert_cases h hash s.ref_hashes m) [
        | inl this ↦ (
          f.path,
          f.content,
          ap (λ u. lookup f.path u.files) p.same ∙ held,
          sym (sum hash refl) ∙ this,
        )
        | inr old ↦ p.still.backed h old
      ];
    };
  }

  prefill-Prefilled :
      (f : SourceFile) (s : State)
      → Held t f
      → Prefilled md5 t s
      → Ensures (prefill os md5 f s) (λ (ok, u). Prefilled md5 t u)
  unfolding prefill
  prefill-Prefilled f s held p =
      Ensures-if (is_wanted f) _ _ _
        (λ wanted. note-Prefilled f s (md5sum os md5 f) (λ h e. ground (arith, e)) held p)
        (λ skipped. p)

  fresh-Prefilled : Prefilled md5 t (fresh t)
  fresh-Prefilled = record {
    same = refl;
    still = record { backed = λ h m. absurd (ground (arith, m)) };
  }

split : (ok : Bool) (P : Type 0) → (ok ≡ true → P) → (ok ≡ false) ⊎ P
split true P h = inr (h refl)
split false P h = inl refl

module _ (os : Os) (v : IsOs os) (md5 : Bytes → ℕ) (t : Tree) (dst src : List SourceFile)
    (held : All (Held t) dst) (small : All IsSmall src) where
  walks :
      (o : Outcome (Bool × State))
      → Ensures o (λ (ok, s). Prefilled md5 t s)
      → Ensures
          (o >>= λ r. nftw (cb os md5) src r.1)
          (λ (ok, u). Kept t u.tree × ((ok ≡ false) ⊎ AllBacked md5 u.tree src))
  walks (done (b, s)) p =
      Ensures-weaken (nftw (cb os md5) src s) (λ (ok, u). Walked md5 src s u ok)
        (λ (ok, u). Kept t u.tree × ((ok ≡ false) ⊎ AllBacked md5 u.tree src))
        (λ (ok, u) w. (
          Kept-trans t s.tree u.tree (Kept-refl t s.tree (ap (λ r. r.files) p.same)) w.others,
          split ok (AllBacked md5 u.tree src) w.all,
        ))
        (nftw-Walked os v md5 src s small p.still)
  walks undefined p = tt
  walks timeout p = tt

-- What a callback needs to return: the file opens and maps.
abbrev pub IsReady : SourceFile → Type 0
IsReady f = reads f ≡ true

module _ (os : Os) (md5 : Bytes → ℕ)
    (shown : (p : FilePath) (c : Bytes) → (b : Bytes) × (os.reread p c ≡ some b)) where
  shown-Returns :
      (p : FilePath) (c : Bytes) (hash : ℕ) (t : Tree)
      → Returns (compare_hash os md5 hash (md5sumat os md5 p c) t)
  shown-Returns p c hash t = let (b, e) = shown p c in rw (e, compare_hash) (_, refl)

  write-Returns :
      (f : SourceFile) (hash : ℕ) (o : Option ℕ) (t : Tree) → Returns (write_file os md5 f hash o t)
  write-Returns f hash none t = (_, refl)
  write-Returns f hash (some n) t =
      Returns-if (as_int n == st_size f) _ _
        (shown-Returns f.path (take n f.content) hash (put_file os md5 f.path (take n f.content) t))
        (_, refl)

  pub copy-Returns : (f : SourceFile) (hash : ℕ) (t : Tree) → Returns (copy os md5 f hash t)
  unfolding copy
  copy-Returns f hash t =
      let made = mkpath os (dirname f.path) t in
      Returns-if (reads f) _ _
        (Returns-if (os.openat made f.path) _ _
          (write-Returns f hash (os.pwrite f.path f.content) made) (_, refl))
        (_, refl)

  visit-Returns : (f : SourceFile) (hash : ℕ) (s : State) → Returns (visit os md5 f (some hash) s)
  visit-Returns f hash s =
      Returns-if (contains hash s.ref_hashes) _ _
        (Returns-if (contains (fnvpath os md5 f) s.ref_hashes_fnv) _ _ (_, refl) (_, refl))
        (Returns-bind (copy os md5 f hash s.tree)
          (copied os md5 (noted_new os md5 f hash (counted f s))) (copy-Returns f hash s.tree)
          (λ r. (_, refl)))

  pub cb-Returns : (f : SourceFile) (s : State) → IsReady f → Returns (cb os md5 f s)
  unfolding cb
  cb-Returns f s ready =
      Returns-if (is_wanted f) _ _ (rw ready (visit-Returns f (md5 f.content) s)) (_, refl)

  prefill-Returns : (f : SourceFile) (s : State) → IsReady f → Returns (prefill os md5 f s)
  unfolding prefill
  prefill-Returns f s ready = elim (Bool-cases (is_wanted f)) [
    | inl wanted ↦ rw (wanted, ready) (_, refl)
    | inr skipped ↦ rw skipped (_, refl)
  ]

-- For a system whose calls behave as documented, a walk of the destination that hands over files it
-- holds, and sources of fewer than 2 ^ 63 bytes, where every file opens, maps and reads back: `main`
-- returns; no file that the destination held is gone or changed; and if the second walk returned 0,
-- each regular file of the source that is not empty has its MD5 sum among the destination's files.
pub backup :
    (os : Os) (md5 : Bytes → ℕ) (t : Tree) (dst src : List SourceFile)
    → IsOs os
    → ((p : FilePath) (c : Bytes) → (b : Bytes) × (os.reread p c ≡ some b))
    → All (Held t) dst
    → All IsReady dst
    → All IsSmall src
    → All IsReady src
    → (ok : Bool) × (u : State) × (run os md5 dst src (fresh t) ≡ done (ok, u))
      × Kept t u.tree
      × ((ok ≡ false) ⊎ AllBacked md5 u.tree src)
unfolding run
backup os md5 t dst src v shown held ready small ready' =
    let (r, e) =
      nftw-Returns (prefill os md5) IsReady (prefill-Returns os md5 shown) dst (fresh t) ready in
    let ((ok, u), q) = nftw-Returns (cb os md5) IsReady (cb-Returns os md5 shown) src r.1 ready' in
    let walked = ap (λ m. m >>= λ (r : Bool × State). nftw (cb os md5) src r.1) e ∙ q in
    let p =
      nftw-Ensures (prefill os md5) (Held t) (Prefilled md5 t) (prefill-Prefilled os md5 t) dst
        (fresh t) held (fresh-Prefilled os md5 t) in
    let (k, all) =
      Ensures-done _ (ok, u) (λ (ok, u). Kept t u.tree × ((ok ≡ false) ⊎ AllBacked md5 u.tree src))
        walked (walks os v md5 t dst src held small (nftw (prefill os md5) dst (fresh t)) p) in
    (ok, u, walked, k, all)
