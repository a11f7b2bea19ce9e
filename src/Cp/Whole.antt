-- ===== src/Cp/Whole.antt =====
-- What a copy leaves of the files.
use xtest.Base.{
  ℕ, ◌≡◌, ◌≢◌, true, false, ◌&&◌, ◌==◌, [], Option, none, some, done, Bool-cases, inl, inr, arith,
  refl, ap,
}
use xtest.CpHash.Os.{Bytes, FilePath, path_eq, Tree, lookup}
use xtest.CpHash.Keeps.{path_eq_refl}
use xtest.Cp.{
  Calls, After, both_fds, fails, holding, zeroed_bytes, fallocated, has_ifreg, compare_md5,
  copy_file,
}
use xtest.Cp.Effects.{all_mapped, Total-if}

pub record Placed (c : Calls) (dst : FilePath) (t : Tree) (r : After) : Type 0 where
  pub succeeds : r.ok ≡ (c.opens && (c.creats && all_mapped c))
  pub whole : r.ok ≡ true → lookup dst r.tree.files ≡ some c.content
  pub behind : (c.opens && c.creats) ≡ true → lookup dst r.tree.files ≢ none
  pub others : (q : FilePath) → path_eq dst q ≡ false → lookup q r.tree.files ≡ lookup q t.files

module _ (c : Calls) (dst : FilePath) (t : Tree) where
  holding-there : (b : Bytes) (u : Tree) → lookup dst (holding dst b u).files ≢ none
  holding-there b u e = cc (path_eq_refl dst, e)

  filled-Placed :
      (md5 : Bytes → ℕ) (found : Option Bytes)
      → found ≡ some c.content
      → c.opens ≡ true
      → c.creats ≡ true
      → all_mapped c ≡ true
      → (r : After) × (compare_md5 md5 false
            (md5 c.content)
            found
            (holding dst c.content (fallocated c dst (holding dst [] t)))
          ≡ done r)
        × Placed c dst t r
  filled-Placed md5 none f o k m = cc
  filled-Placed md5 (some d) f o k m =
      let g : d ≡ c.content = cc in
      Total-if (md5 c.content == md5 d) _ _ _
        (λ e. (
          _,
          refl,
          record {
            succeeds = cc (o, k, m);
            whole = λ h. rw (path_eq_refl dst) refl;
            behind = λ h. holding-there c.content (fallocated c dst (holding dst [] t));
            others = λ q h. ground (arith, h);
          },
        ))
        (λ e. absurd (ground (arith, ap md5 g, e)))

  fails-Placed :
      (u : Tree)
      → c.opens ≡ true
      → c.creats ≡ true
      → all_mapped c ≡ false
      → lookup dst u.files ≢ none
      → ((q : FilePath) → path_eq dst q ≡ false → lookup q u.files ≡ lookup q t.files)
      → Placed c dst t (fails both_fds u)
  fails-Placed u o k m there others = record {
    succeeds = cc (o, k, m);
    whole = λ e. cc e;
    behind = λ e. there;
    others = others;
  }

  fallocated-there : lookup dst (fallocated c dst (holding dst [] t)).files ≢ none
  fallocated-there = elim (Bool-cases c.fallocates) [
    | inl f ↦ rw f (holding-there (zeroed_bytes c.content) (holding dst [] t))
    | inr f ↦ rw f (holding-there [] t)
  ]

  fallocated-others :
      (q : FilePath)
      → path_eq dst q ≡ false
      → lookup q (fallocated c dst (holding dst [] t)).files ≡ lookup q t.files
  fallocated-others q h = ground (arith, h)

  nothing-Placed : (c.opens && c.creats) ≡ false → Placed c dst t (fails [] t)
  nothing-Placed e = record {
    succeeds = ground (arith, e);
    whole = λ h. cc h;
    behind = λ h. absurd (cc (e, h));
    others = λ q h. refl;
  }

-- Where `posix_fallocate` succeeds and `md5sum` reads back what was written, `copy_file` returns, and
-- returns 0 exactly when each call succeeds. Then the new path has the source's whole content. Once
-- the new file is created it stays, whatever fails after. No other path is touched.
pub copy_file_lem :
    (md5 : Bytes → ℕ) (c : Calls) (dst : FilePath) (t : Tree)
    → c.fallocates ≡ true
    → c.reread c.content ≡ some c.content
    → (r : After) × (copy_file md5 c dst t ≡ done r) × Placed c dst t r
unfolding copy_file
copy_file_lem md5 c dst t f e =
    Total-if c.opens _ _ _
      (λ o.
        Total-if c.creats _ _ _
          (λ k.
            Total-if (c.stats_src && (c.stats_dst && (has_ifreg c.st_mode && c.maps_src))) _ _ _
              (λ m.
                Total-if c.maps_dst _ _ _
                  (λ d.
                    Total-if c.fallocates _ _ _
                      (λ f'.
                        filled-Placed c dst t md5 (c.reread c.content) e o k (ground (arith, m, d)))
                      (λ f'. cc (f, f')))
                  (λ d. (
                    _,
                    refl,
                    fails-Placed c dst t _ o k (ground (arith, d)) (fallocated-there c dst t)
                        (fallocated-others c dst t),
                  )))
              (λ m. (
                _,
                refl,
                fails-Placed c dst t _ o k (ground (arith, m)) (holding-there c dst t [] t)
                    (λ q h. ground (arith, h)),
              )))
          (λ k. (_, refl, nothing-Placed c dst t (ground (arith, k)))))
      (λ o. (_, refl, nothing-Placed c dst t (ground (arith, o))))
