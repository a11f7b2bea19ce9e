-- ===== src/Cpcr2/Freed.antt =====
-- A string of the set that a failed copy has freed.
use xtest.Base.{
  ℕ, ◌+◌, ◌≡◌, Bool, true, false, ◌&&◌, ◌||◌, ltb, ◌==◌, if◌then◌else◌, List, [], ◌∷◌, ◌++◌, length,
  Option, none, some, Outcome, done, undefined, timeout, require, ◌>>=◌, Bool-cases, inl, inr,
  arith, refl, ap, ◌∙◌, sym, subst,
}
use xtest.CpHash.Os.{Bytes, FilePath, Tree}
use xtest.Cp.{Calls, After, copy_file, copy_file_hash, compare_md5, open_both, has_ifreg}
use xtest.Cp.Effects.{copy_file_hash_lem, all_mapped}
use xtest.Cpcr2.Name.{has_slash, dcp_name}
use xtest.Cpcr2.{
  Photo, Album, new_album, is_held, is_wanted_photo, count_err, keep_jpg, keep_cr2, item,
  process_file, process_files, any_freed, free_all, cp_cr2,
}

-- Undefined already, or with a freed string in the set.
abbrev Spoilt : Outcome Album → Type 0
Spoilt (done s) = any_freed s.md5set ≡ true
Spoilt undefined = Unit {0}
Spoilt timeout = ⊥

abbrev Ends : {A : Type 0} → Outcome A → Type 0
Ends (done a) = Unit {0}
Ends undefined = Unit {0}
Ends timeout = ⊥

Ends-if : {A : Type 0} (c : Bool) (x y : Outcome A) → Ends x → Ends y → Ends (if c then x else y)
Ends-if true x y p q = p
Ends-if false x y p q = q

module _ (md5 : Bytes → ℕ) where
  compare-Ends :
      (frees : Bool) (h : ℕ) (b : Option Bytes) (t : Tree) → Ends (compare_md5 md5 frees h b t)
  compare-Ends frees h none t = tt
  compare-Ends frees h (some b) t = Ends-if (h == md5 b) _ _ tt tt

  open-Ends :
      (c : Calls) (frees : Bool) (h : ℕ) (dst : FilePath) (t : Tree)
      → Ends (open_both md5 c frees h dst t)
  open-Ends c frees h dst t =
      Ends-if c.opens _ _
        (Ends-if c.creats _ _
          (Ends-if (c.stats_src && (c.stats_dst && (has_ifreg c.st_mode && c.maps_src))) _ _
            (Ends-if c.maps_dst _ _
              (Ends-if c.fallocates _ _ (compare-Ends frees h (c.reread c.content) _) tt) tt)
            tt)
          tt)
        tt

  module _ (dst : List ℕ) where
    jpg-Spoilt :
        (x : Album) (m : Outcome After)
        → any_freed x.md5set ≡ true
        → Ends m
        → Spoilt (m >>= keep_jpg md5 dst x)
    jpg-Spoilt x (done q) f e = f
    jpg-Spoilt x undefined f e = tt
    jpg-Spoilt x timeout f e = elim e [ ]

    cr2-Spoilt :
        (p : Photo) (hval n : ℕ) (x : Album) (r : After)
        → (r.hash_freed || any_freed x.md5set) ≡ true
        → Spoilt (keep_cr2 md5 dst p hval n x r)
    unfolding copy_file
    cr2-Spoilt p hval n x r f =
        jpg-Spoilt
          (record x {
            md5set = record { hash = hval; freed = r.hash_freed } ∷ x.md5set;
            n_cr2_err = count_err r.ok x.n_cr2_err;
          })
          _ f (open-Ends p.jpg false (md5 p.jpg.content) _ r.tree)

    require-Spoilt : (c : Bool) (m : Outcome Album) → Spoilt m → Spoilt (require c m)
    require-Spoilt true m h = h
    require-Spoilt false m h = tt

    Spoilt-if : (c : Bool) (x y : Outcome Album) → Spoilt x → Spoilt y → Spoilt (if c then x else y)
    Spoilt-if true x y p q = p
    Spoilt-if false x y p q = q

    item-Spoilt :
        (p : Photo) (o : Option ℕ) (s : Album)
        → any_freed s.md5set ≡ true
        → Spoilt (item md5 dst p o s)
    item-Spoilt p none s f = tt
    item-Spoilt p (some hval) s f = rw f tt

    file-Spoilt :
        (p : Photo) (s : Album) → any_freed s.md5set ≡ true → Spoilt (process_file md5 dst p s)
    unfolding process_file
    file-Spoilt p s f = Spoilt-if (is_wanted_photo p) _ _ (item-Spoilt p p.md5sum _ f) f

    files-Spoilt :
        (photos : List Photo) (m : Outcome Album)
        → Spoilt m
        → Spoilt (m >>= process_files md5 dst photos)
    unfolding process_files
    files-Spoilt [] (done s) h = h
    files-Spoilt [] undefined h = tt
    files-Spoilt [] timeout h = elim h [ ]
    files-Spoilt (p ∷ rest) (done s) h =
        files-Spoilt rest (process_file md5 dst p s) (file-Spoilt p s h)
    files-Spoilt (p ∷ rest) undefined h = tt
    files-Spoilt (p ∷ rest) timeout h = elim h [ ]

    free-Spoilt : (m : Outcome Album) → Spoilt m → (m >>= free_all) ≡ undefined
    free-Spoilt (done s) h = rw h refl
    free-Spoilt undefined h = refl
    free-Spoilt timeout h = elim h [ ]

    refused-Spoilt :
        (p : Photo) (hval : ℕ) (s : Album) (b : Bytes)
        → is_held hval s.md5set ≡ false
        → (p.cr2.opens && (p.cr2.creats && (all_mapped p.cr2 && p.cr2.fallocates))) ≡ true
        → p.cr2.reread p.cr2.content ≡ some b
        → (hval == md5 b) ≡ false
        → Spoilt (item md5 dst p (some hval) s)
    refused-Spoilt p hval s b new calls read differ =
        let name = dcp_name dst p.fpath s.seq (67 ∷ 82 ∷ 50 ∷ []) in
        let (r, e, left) =
          copy_file_hash_lem md5 p.cr2 name hval s.tree b (ground (arith, calls)) read in
        let freed : r.hash_freed ≡ true = ground (arith, left.frees, calls, differ) in
        let x = record s { n_unique = s.n_unique + 1; seq = s.seq + 1 } in
        elim (Bool-cases (any_freed s.md5set)) [
          | inl f ↦ rw f tt
          | inr clean ↦
              rw (clean, new)
                (require-Spoilt (has_slash p.fpath && ltb (length name) 1024)
                  (copy_file_hash md5 p.cr2 name hval s.tree >>= keep_cr2 md5 dst p hval s.seq x)
                  (subst (λ o. Spoilt (o >>= keep_cr2 md5 dst p hval s.seq x)) (sym e)
                    (cr2-Spoilt p hval s.seq x r (ground (arith, freed)))))
        ]

    refused_file-Spoilt :
        (p : Photo) (hval : ℕ) (s : Album) (b : Bytes)
        → is_wanted_photo p ≡ true
        → p.md5sum ≡ some hval
        → is_held hval s.md5set ≡ false
        → (p.cr2.opens && (p.cr2.creats && (all_mapped p.cr2 && p.cr2.fallocates))) ≡ true
        → p.cr2.reread p.cr2.content ≡ some b
        → (hval == md5 b) ≡ false
        → Spoilt (process_file md5 dst p s)
    unfolding process_file
    refused_file-Spoilt p hval s b wanted hash new calls read differ =
        let t = record s { n_files = s.n_files + 1 } in
        rw wanted (
          subst (λ o. Spoilt (item md5 dst p o t)) (sym hash)
            (refused-Spoilt p hval t b new calls read differ))

    process_files-append :
        (xs ys : List Photo) (s : Album)
        → process_files md5 dst (xs ++ ys) s
          ≡ (process_files md5 dst xs s >>= process_files md5 dst ys)
    unfolding process_files
    process_files-append [] ys s = refl
    process_files-append (p ∷ xs) ys s =
        after_file (process_file md5 dst p s) (λ t. process_files-append xs ys t)
      where
        after_file :
            (m : Outcome Album)
            → ((t : Album)
                → process_files md5 dst (xs ++ ys) t
                  ≡ (process_files md5 dst xs t >>= process_files md5 dst ys))
            → (m >>= process_files md5 dst (xs ++ ys))
              ≡ ((m >>= process_files md5 dst xs) >>= process_files md5 dst ys)
        after_file (done t) ih = ih t
        after_file undefined ih = refl
        after_file timeout ih = refl

-- If, after any files, a wanted file comes whose hash is not in the set and whose copy, with all calls
-- succeeding, is read back with another hash, then `main` comes to undefined behaviour, whatever files
-- come after: the string that `copy_file_hash` freed is in the set, and is read or freed again.
pub cp_cr2-undefined :
    (md5 : Bytes → ℕ) (dst : List ℕ) (before : List Photo) (p : Photo) (after : List Photo)
    (t : Tree) (s : Album) (hval : ℕ) (b : Bytes)
    → process_files md5 dst before (new_album t) ≡ done s
    → is_wanted_photo p ≡ true
    → p.md5sum ≡ some hval
    → is_held hval s.md5set ≡ false
    → (p.cr2.opens && (p.cr2.creats && (all_mapped p.cr2 && p.cr2.fallocates))) ≡ true
    → p.cr2.reread p.cr2.content ≡ some b
    → (hval == md5 b) ≡ false
    → cp_cr2 md5 dst (before ++ p ∷ after) t ≡ undefined
unfolding cp_cr2 process_files
cp_cr2-undefined md5 dst before p after t s hval b reached wanted hash new calls read differ =
    let end = process_files md5 dst (p ∷ after) in
    ap (λ m. m >>= free_all) (process_files-append md5 dst before (p ∷ after) (new_album t))
    ∙ (ap (λ m. (m >>= end) >>= free_all) reached
        ∙ free-Spoilt md5 dst (end s) (
            files-Spoilt md5 dst after (process_file md5 dst p s)
              (refused_file-Spoilt md5 dst p hval s b wanted hash new calls read differ)))
