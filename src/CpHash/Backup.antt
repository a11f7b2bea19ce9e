-- ===== src/CpHash/Backup.antt =====
-- Every file that was walked has its hash among the destination's files.
use xtest.Base.{
  ℕ, ◌+◌, ◌^◌, ◌<◌, ◌≡◌, Bool, true, false, ◌||◌, List, [], ◌∷◌, Option, none, some, Outcome, done,
  undefined, timeout, ◌>>=◌, Ensures, Ensures-if, Bool-cases, ◌⊎◌, inl, inr, arith, refl, ap, ◌∙◌,
  sym, subst,
}
use xtest.Base.Sets.{contains, insert}
use xtest.CpHash.Os.{Bytes, FilePath, Tree, lookup, Os, IsOs}
use xtest.CpHash.Copy.{SourceFile, st_size, md5sum, fnvpath, copy}
use xtest.CpHash.Walk.{State, counted, noted_new, is_wanted, copied, known_hash, visit, cb}
use xtest.CpHash.Nftw.{go_on, nftw, All}
use xtest.CpHash.Keeps.{Kept, Kept-refl, Kept-trans, Copied, copy-Copied}

-- Some file of the destination has the hash.
abbrev pub Has : (Bytes → ℕ) → Tree → ℕ → Type 0
Has md5 t h = (p : FilePath) × (c : Bytes) × (lookup p t.files ≡ some c) × (md5 c ≡ h)

pub record IsBacked (md5 : Bytes → ℕ) (s : State) : Type 0 where
  pub backed : (h : ℕ) → contains h s.ref_hashes ≡ true → Has md5 s.tree h

pub record Visited (md5 : Bytes → ℕ) (f : SourceFile) (s t : State) (ok : Bool) : Type 0 where
  pub others : Kept s.tree t.tree
  pub still : ok ≡ true → IsBacked md5 t
  pub noted : ok ≡ true → is_wanted f ≡ true → contains (md5 f.content) t.ref_hashes ≡ true

Has-Kept : (md5 : Bytes → ℕ) (t u : Tree) (h : ℕ) → Kept t u → Has md5 t h → Has md5 u h
Has-Kept md5 t u h k (p, c, e, q) = (p, c, k.kept p c e, q)

or_cases : (p q : Bool) → (p || q) ≡ true → (p ≡ true) ⊎ (q ≡ true)
or_cases true q e = inl refl
or_cases false q e = inr e

contains-insert_self : (x : ℕ) (xs : List ℕ) → contains x (insert x xs) ≡ true
contains-insert_self x xs = ground arith

pub contains-insert_cases :
    (x y : ℕ) (xs : List ℕ) → contains x (insert y xs) ≡ true → (y ≡ x) ⊎ (contains x xs ≡ true)
contains-insert_cases x y xs h = ground arith

module _ (os : Os) (v : IsOs os) (md5 : Bytes → ℕ) (f : SourceFile) (s : State) (b : IsBacked md5 s)
    (small : st_size f < 2 ^ 63) where
  new-Visited :
      (o : Outcome (Bool × Tree)) (u : State)
      → u.ref_hashes ≡ insert (md5 f.content) s.ref_hashes
      → Ensures o (λ (ok, w). Copied md5 f (md5 f.content) s.tree w ok)
      → Ensures (o >>= copied os md5 u) (λ (ok, t). Visited md5 f s t ok)
  new-Visited (done (ok, w)) u e c = record {
    others = c.others;
    still = λ q. record {
      backed = λ h m.
          elim (contains-insert_cases h (md5 f.content) s.ref_hashes
            (ap (contains h) (sym e) ∙ m)) [
              | inl this ↦ (f.path, f.content, c.whole q, this)
              | inr old ↦ Has-Kept md5 s.tree w h c.others (b.backed h old)
            ];
    };
    noted = λ q wanted.
        ap (contains (md5 f.content)) e ∙ contains-insert_self (md5 f.content) s.ref_hashes;
  }
  new-Visited undefined u e c = tt
  new-Visited timeout u e c = tt

  md5sum_lem : (h : ℕ) → md5sum os md5 f ≡ some h → h ≡ md5 f.content
  md5sum_lem h e = ground (arith, e)

  same-Visited :
      (ok : Bool) (u : State)
      → u.tree ≡ s.tree
      → u.ref_hashes ≡ s.ref_hashes
      → (ok ≡ true → is_wanted f ≡ true → contains (md5 f.content) s.ref_hashes ≡ true)
      → Visited md5 f s u ok
  same-Visited ok u e e' known = record {
    others = Kept-refl s.tree u.tree (ap (λ t. t.files) e);
    still = λ q. record {
      backed = λ h m. subst (λ t. Has md5 t h) (sym e) (b.backed h (ap (contains h) (sym e') ∙ m));
    };
    noted = λ q wanted. ap (contains (md5 f.content)) e' ∙ known q wanted;
  }

  known-Visited :
      (a x : ℕ)
      → contains (md5 f.content) s.ref_hashes ≡ true
      → Ensures
          (known_hash os md5 f (record s { n_files = a; n_bytes_src = x }))
          (λ (ok, t). Visited md5 f s t ok)
  known-Visited a x known = elim (Bool-cases (contains (fnvpath os md5 f) s.ref_hashes_fnv)) [
    | inl match ↦ rw match (same-Visited true _ refl refl (λ q w. known))
    | inr clash ↦ rw clash (same-Visited false _ refl refl (λ q w. known))
  ]

  visit-Visited :
      (o : Option ℕ)
      → ((h : ℕ) → o ≡ some h → h ≡ md5 f.content)
      → Ensures (visit os md5 f o s) (λ (ok, t). Visited md5 f s t ok)
  visit-Visited none sum = tt
  visit-Visited (some hash) sum = rw (sum hash refl) (
      Ensures-if (contains (md5 f.content) s.ref_hashes) _ _ _
        (λ known. known-Visited (s.n_files + 1) (s.n_bytes_src + st_size f) known)
        (λ new.
          new-Visited (copy os md5 f (md5 f.content) s.tree)
            (noted_new os md5 f (md5 f.content) (counted f s)) refl
            (copy-Copied os v md5 f (md5 f.content) s.tree small)))

  pub cb-Visited : Ensures (cb os md5 f s) (λ (ok, t). Visited md5 f s t ok)
  unfolding cb
  cb-Visited = elim (Bool-cases (is_wanted f)) [
    | inr skipped ↦ rw skipped (same-Visited true s refl refl (λ q w. cc))
    | inl wanted ↦ rw wanted (visit-Visited (md5sum os md5 f) (λ h e. md5sum_lem h e))
  ]

-- Each file of a walk is one that is passed over, or has its hash in the destination.
abbrev pub AllBacked : (Bytes → ℕ) → Tree → List SourceFile → Type 0
AllBacked md5 t [] = Unit {0}
AllBacked md5 t (f ∷ rest) =
    ((is_wanted f ≡ false) ⊎ Has md5 t (md5 f.content)) × AllBacked md5 t rest

abbrev pub IsSmall : SourceFile → Type 0
IsSmall f = st_size f < 2 ^ 63

pub record Walked (md5 : Bytes → ℕ) (files : List SourceFile) (s t : State) (ok : Bool)
    : Type 0 where
  pub others : Kept s.tree t.tree
  pub still : ok ≡ true → IsBacked md5 t
  pub all : ok ≡ true → AllBacked md5 t.tree files

module _ (os : Os) (v : IsOs os) (md5 : Bytes → ℕ) where
  this_file :
      (f : SourceFile) (s u t : State)
      → Visited md5 f s u true
      → Kept u.tree t.tree
      → (is_wanted f ≡ false) ⊎ Has md5 t.tree (md5 f.content)
  this_file f s u t one k = elim (Bool-cases (is_wanted f)) [
    | inl wanted ↦ inr (
        Has-Kept md5 u.tree t.tree (md5 f.content) k
          ((one.still refl).backed (md5 f.content) (one.noted refl wanted)))
    | inr skipped ↦ inl skipped
  ]

  widen :
      (f : SourceFile) (rest : List SourceFile) (s u : State)
      → Visited md5 f s u true
      → (o : Outcome (Bool × State)) → Ensures o (λ (ok, t). Walked md5 rest u t ok)
      → Ensures o (λ (ok, t). Walked md5 (f ∷ rest) s t ok)
  widen f rest s u one (done (ok, t)) w = record {
    others = Kept-trans s.tree u.tree t.tree one.others w.others;
    still = w.still;
    all = λ q. (this_file f s u t one w.others, w.all q);
  }
  widen f rest s u one undefined w = tt
  widen f rest s u one timeout w = tt

  go_on-Walked :
      (f : SourceFile) (rest : List SourceFile) (s : State) (o : Outcome (Bool × State))
      → Ensures o (λ (ok, u). Visited md5 f s u ok)
      → ((u : State)
          → IsBacked md5 u
          → Ensures (nftw (cb os md5) rest u) (λ (ok, t). Walked md5 rest u t ok))
      → Ensures (o >>= go_on (nftw (cb os md5) rest)) (λ (ok, t). Walked md5 (f ∷ rest) s t ok)
  go_on-Walked f rest s (done (true, u)) one more = widen f rest s u one _ (more u (one.still refl))
  go_on-Walked f rest s (done (false, u)) one more = record {
    others = one.others;
    still = λ q. cc;
    all = λ q. cc;
  }
  go_on-Walked f rest s undefined one more = tt
  go_on-Walked f rest s timeout one more = tt

  pub nftw-Walked :
      (files : List SourceFile) (s : State)
      → All IsSmall files
      → IsBacked md5 s
      → Ensures (nftw (cb os md5) files s) (λ (ok, t). Walked md5 files s t ok)
  unfolding nftw
  nftw-Walked [] s small b = record {
    others = Kept-refl s.tree s.tree refl;
    still = λ q. b;
    all = λ q. tt;
  }
  nftw-Walked (f ∷ rest) s (one, small) b =
      go_on-Walked f rest s (cb os md5 f s) (cb-Visited os v md5 f s b one)
        (λ u c. nftw-Walked rest u small c)
