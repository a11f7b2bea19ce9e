-- ===== src/Cpex/Placed.antt =====
-- Where a file of the source is after a walk that returned 0.
use xtest.Base.{
  ℕ, ◌^◌, ◌<◌, ◌≡◌, Bool, true, false, List, [], ◌∷◌, Option, none, some, Outcome, done, undefined,
  timeout, ◌>>=◌, Ensures, Ensures-if, Ensures-done, Returns, Returns-if, Returns-bind, ◌⊎◌, inl,
  inr, arith, refl, ◌∙◌, subst,
}
use xtest.Base.Sets.{contains}
use xtest.CpHash.Os.{Bytes, FilePath, Tree, lookup, Os, IsOs}
use xtest.CpHash.Copy.{SourceFile, st_size, md5sum, fnvpath, copy}
use xtest.CpHash.Nftw.{go_on, nftw, All, nftw-Returns}
use xtest.CpHash.Walk.{is_wanted}
use xtest.CpHash.Keeps.{Kept, Kept-refl, Kept-trans, Copied, copy-Copied}
use xtest.CpHash.Main.{IsReady, copy-Returns}
use xtest.CpHash.Backup.{IsSmall}
use xtest.Cpex.{Copier, count_file, count_copy, with_tree, in_a, visit1, cb1}

-- Not a regular file or empty, or with a hash that A has, or in B in full under its path.
abbrev pub Placed : (Bytes → ℕ) → List ℕ → Tree → SourceFile → Type 0
Placed md5 a t f =
    (is_wanted f ≡ false)
    ⊎ ((contains (md5 f.content) a ≡ true) ⊎ (lookup f.path t.files ≡ some f.content))

pub record Visited (md5 : Bytes → ℕ) (files : List SourceFile) (s t : Copier) (ok : Bool)
    : Type 0 where
  pub others : Kept s.dst_b t.dst_b
  pub same : t.dst_a_hashes ≡ s.dst_a_hashes
  pub placed : (ok ≡ false) ⊎ All (Placed md5 s.dst_a_hashes t.dst_b) files

Placed-Kept :
    (md5 : Bytes → ℕ) (a : List ℕ) (t u : Tree) (f : SourceFile)
    → Kept t u
    → Placed md5 a t f
    → Placed md5 a u f
Placed-Kept md5 a t u f k (inl skipped) = inl skipped
Placed-Kept md5 a t u f k (inr (inl known)) = inr (inl known)
Placed-Kept md5 a t u f k (inr (inr there)) = inr (inr (k.kept f.path f.content there))

both :
    (md5 : Bytes → ℕ) (f : SourceFile) (rest : List SourceFile) (a : List ℕ) (u t : Tree)
    (ok : Bool)
    → Kept u t
    → (true ≡ false) ⊎ All (Placed md5 a u) (f ∷ [])
    → (ok ≡ false) ⊎ All (Placed md5 a t) rest
    → (ok ≡ false) ⊎ All (Placed md5 a t) (f ∷ rest)
both md5 f rest a u t ok k (inl e) more = cc
both md5 f rest a u t ok k (inr (p, none_left)) (inl e) = inl e
both md5 f rest a u t ok k (inr (p, none_left)) (inr q) = inr (Placed-Kept md5 a u t f k p, q)

module _ (os : Os) (v : IsOs os) (md5 : Bytes → ℕ) where
  Copied-Placed :
      (f : SourceFile) (s u : Copier) (o : Outcome (Bool × Tree))
      → u.dst_a_hashes ≡ s.dst_a_hashes
      → Ensures o (λ (ok, w). Copied md5 f (md5 f.content) s.dst_b w ok)
      → Ensures (o >>= with_tree u) (λ (ok, t). Visited md5 (f ∷ []) s t ok)
  Copied-Placed f s u (done (true, w)) same c = record {
    others = c.others;
    same = same;
    placed = inr (inr (inr (c.whole refl)), tt);
  }
  Copied-Placed f s u (done (false, w)) same c = record {
    others = c.others;
    same = same;
    placed = inl refl;
  }
  Copied-Placed f s u undefined same c = tt
  Copied-Placed f s u timeout same c = tt

  in_a-Placed :
      (f : SourceFile) (s : Copier)
      → contains (md5 f.content) s.dst_a_hashes ≡ true
      → Ensures (in_a os md5 f (count_file f s)) (λ (ok, t). Visited md5 (f ∷ []) s t ok)
  in_a-Placed f s known =
      Ensures-if (contains (fnvpath os md5 f) s.dst_a_hashes_fnv) _ _ _
        (λ m. record {
          others = Kept-refl s.dst_b s.dst_b refl;
          same = refl;
          placed = inr (inr (inl known), tt);
        })
        (λ m. record { others = Kept-refl s.dst_b s.dst_b refl; same = refl; placed = inl refl })

  visit1-Placed :
      (f : SourceFile) (o : Option ℕ) (s : Copier)
      → ((h : ℕ) → o ≡ some h → h ≡ md5 f.content)
      → st_size f < 2 ^ 63
      → Ensures (visit1 os md5 f o s) (λ (ok, t). Visited md5 (f ∷ []) s t ok)
  visit1-Placed f none s sum small = tt
  visit1-Placed f (some hash) s sum small = rw (sum hash refl) (
      Ensures-if (contains (md5 f.content) s.dst_a_hashes) _ _ _ (λ known. in_a-Placed f s known)
        (λ new.
          Copied-Placed f s (count_copy f (count_file f s)) (copy os md5 f (md5 f.content) s.dst_b)
            refl (copy-Copied os v md5 f (md5 f.content) s.dst_b small)))

  cb1-Placed :
      (f : SourceFile) (s : Copier)
      → st_size f < 2 ^ 63
      → Ensures (cb1 os md5 f s) (λ (ok, t). Visited md5 (f ∷ []) s t ok)
  unfolding cb1
  cb1-Placed f s small =
      Ensures-if (is_wanted f) _ _ _
        (λ wanted. visit1-Placed f (md5sum os md5 f) s (λ h e. ground (arith, e)) small)
        (λ skipped. record {
          others = Kept-refl s.dst_b s.dst_b refl;
          same = refl;
          placed = inr (inl skipped, tt);
        })

  join :
      (f : SourceFile) (rest : List SourceFile) (s u t : Copier) (ok : Bool)
      → Visited md5 (f ∷ []) s u true
      → Visited md5 rest u t ok
      → Visited md5 (f ∷ rest) s t ok
  join f rest s u t ok one more = record {
    others = Kept-trans s.dst_b u.dst_b t.dst_b one.others more.others;
    same = more.same ∙ one.same;
    placed =
        both md5 f rest s.dst_a_hashes u.dst_b t.dst_b ok more.others one.placed
          (subst (λ a. (ok ≡ false) ⊎ All (Placed md5 a t.dst_b) rest) one.same more.placed);
  }

  join_all :
      (f : SourceFile) (rest : List SourceFile) (s u : Copier)
      → Visited md5 (f ∷ []) s u true
      → (o : Outcome (Bool × Copier)) → Ensures o (λ (ok, t). Visited md5 rest u t ok)
      → Ensures o (λ (ok, t). Visited md5 (f ∷ rest) s t ok)
  join_all f rest s u one (done (ok, t)) more = join f rest s u t ok one more
  join_all f rest s u one undefined more = tt
  join_all f rest s u one timeout more = tt

  go_on-Placed :
      (f : SourceFile) (rest : List SourceFile) (s : Copier) (o : Outcome (Bool × Copier))
      → Ensures o (λ (ok, u). Visited md5 (f ∷ []) s u ok)
      → ((u : Copier) → Ensures (nftw (cb1 os md5) rest u) (λ (ok, t). Visited md5 rest u t ok))
      → Ensures (o >>= go_on (nftw (cb1 os md5) rest)) (λ (ok, t). Visited md5 (f ∷ rest) s t ok)
  go_on-Placed f rest s (done (true, u)) one more = join_all f rest s u one _ (more u)
  go_on-Placed f rest s (done (false, u)) one more = record {
    others = one.others;
    same = one.same;
    placed = inl refl;
  }
  go_on-Placed f rest s undefined one more = tt
  go_on-Placed f rest s timeout one more = tt

  pub nftw-Placed :
      (files : List SourceFile) (s : Copier)
      → All IsSmall files
      → Ensures (nftw (cb1 os md5) files s) (λ (ok, t). Visited md5 files s t ok)
  unfolding nftw
  nftw-Placed [] s small = record {
    others = Kept-refl s.dst_b s.dst_b refl;
    same = refl;
    placed = inr tt;
  }
  nftw-Placed (f ∷ rest) s (one, small) =
      go_on-Placed f rest s (cb1 os md5 f s) (cb1-Placed f s one) (λ u. nftw-Placed rest u small)

module _ (os : Os) (md5 : Bytes → ℕ)
    (shown : (p : FilePath) (c : Bytes) → (b : Bytes) × (os.reread p c ≡ some b)) where
  cb1-Returns : (f : SourceFile) (s : Copier) → IsReady f → Returns (cb1 os md5 f s)
  unfolding cb1
  cb1-Returns f s ready =
      Returns-if (is_wanted f) _ _
        (rw ready (
          Returns-if (contains (md5 f.content) s.dst_a_hashes) _ _
            (Returns-if (contains (fnvpath os md5 f) s.dst_a_hashes_fnv) _ _ (_, refl) (_, refl))
            (Returns-bind (copy os md5 f (md5 f.content) s.dst_b)
              (with_tree (count_copy f (count_file f s)))
              (copy-Returns os md5 shown f (md5 f.content) s.dst_b) (λ r. (_, refl)))))
        (_, refl)

-- For a system whose calls behave as documented, and sources of fewer than 2 ^ 63 bytes that open, map
-- and read back: the walk of the source returns; A's hashes stay and no file of B is gone or
-- changed; and if the walk returned 0, each file of the source is not regular or empty, or has a hash
-- that A has, or stands in B in full under its own path.
pub cpex_places :
    (os : Os) (md5 : Bytes → ℕ) (src : List SourceFile) (s : Copier)
    → IsOs os
    → ((p : FilePath) (c : Bytes) → (b : Bytes) × (os.reread p c ≡ some b))
    → All IsSmall src
    → All IsReady src
    → (ok : Bool) × (t : Copier) × (nftw (cb1 os md5) src s ≡ done (ok, t)) × Visited md5 src s t ok
cpex_places os md5 src s v shown small ready =
    let ((ok, t), e) = nftw-Returns (cb1 os md5) IsReady (cb1-Returns os md5 shown) src s ready in
    (
      ok,
      t,
      e,
      Ensures-done _ (ok, t) (λ (ok, t). Visited md5 src s t ok) e
          (nftw-Placed os v md5 src s small),
    )
