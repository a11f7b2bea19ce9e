-- ===== src/Cp/Effects.antt =====
-- What a copy leaves of descriptors and of the caller's hash.
use xtest.Base.{
  ℕ, ◌≡◌, Bool, true, false, not, ◌&&◌, ◌==◌, if◌then◌else◌, [], Option, none, some, Outcome, done,
  arith, refl,
}
use xtest.CpHash.Os.{Bytes, FilePath, Tree}
use xtest.Cp.{Calls, After, both_fds, fails, has_ifreg, compare_md5, copy_file_hash}

-- The calls up to the second `mmap` all succeed.
abbrev pub all_mapped : Calls → Bool
all_mapped c = c.stats_src && (c.stats_dst && (has_ifreg c.st_mode && (c.maps_src && c.maps_dst)))

-- What a copy of a hash that the caller gives leaves.
pub record Left (md5 : Bytes → ℕ) (c : Calls) (hash : ℕ) (b : Bytes) (r : After) : Type 0 where
  pub succeeds : r.ok ≡ (c.opens && (c.creats && (all_mapped c && (hash == md5 b))))
  pub leaks : r.open_fds ≡ (if c.opens && (c.creats && not (all_mapped c)) then both_fds else [])
  pub frees : r.hash_freed ≡ (c.opens && (c.creats && (all_mapped c && not (hash == md5 b))))

pub Total-if :
    {A : Type 0} (c : Bool) (x y : Outcome A) (P : A → Type 0)
    → (c ≡ true → (r : A) × (x ≡ done r) × P r)
    → (c ≡ false → (r : A) × (y ≡ done r) × P r)
    → (r : A) × ((if c then x else y) ≡ done r) × P r
Total-if true x y P yes_case no_case = yes_case refl
Total-if false x y P yes_case no_case = no_case refl

module _ (md5 : Bytes → ℕ) (c : Calls) (hash : ℕ) (b : Bytes) where
  compare-Left :
      (t : Tree) (found : Option Bytes)
      → found ≡ some b
      → c.opens ≡ true
      → c.creats ≡ true
      → all_mapped c ≡ true
      → (r : After) × (compare_md5 md5 true hash found t ≡ done r) × Left md5 c hash b r
  compare-Left t none f o k m = cc
  compare-Left t (some d) f o k m =
      let g : d ≡ b = cc in
      Total-if (hash == md5 d) _ _ _
        (λ e. (
          _,
          refl,
          record {
            succeeds = cc (o, k, m, e, g);
            leaks = rw (o, k, m) refl;
            frees = cc (o, k, m, e, g);
          },
        ))
        (λ e. (
          _,
          refl,
          record {
            succeeds = cc (o, k, m, e, g);
            leaks = rw (o, k, m) refl;
            frees = cc (o, k, m, e, g);
          },
        ))

  fails-Left :
      (t : Tree)
      → c.opens ≡ true
      → c.creats ≡ true
      → all_mapped c ≡ false
      → Left md5 c hash b (fails both_fds t)
  fails-Left t o k m = record {
    succeeds = rw (o, k, m) refl;
    leaks = rw (o, k, m) refl;
    frees = rw (o, k, m) refl;
  }

-- Where `posix_fallocate` succeeds and the new file is read back as `b`: `copy_file_hash` returns; it
-- returns 0 exactly when each call succeeds and the MD5 sum of `b` is the hash it was given; it leaves
-- both descriptors open exactly when both files opened and a later call up to the second `mmap`
-- failed; and it frees the caller's string exactly when the hashes differ.
pub copy_file_hash_lem :
    (md5 : Bytes → ℕ) (c : Calls) (dst : FilePath) (hash : ℕ) (t : Tree) (b : Bytes)
    → c.fallocates ≡ true
    → c.reread c.content ≡ some b
    → (r : After) × (copy_file_hash md5 c dst hash t ≡ done r) × Left md5 c hash b r
unfolding copy_file_hash
copy_file_hash_lem md5 c dst hash t b f e =
    Total-if c.opens _ _ _
      (λ o.
        Total-if c.creats _ _ _
          (λ k.
            Total-if (c.stats_src && (c.stats_dst && (has_ifreg c.st_mode && c.maps_src))) _ _ _
              (λ m.
                Total-if c.maps_dst _ _ _
                  (λ d.
                    Total-if c.fallocates _ _ _
                      (λ f'.
                        compare-Left md5 c hash b _ (c.reread c.content) e o k
                          (ground (arith, m, d)))
                      (λ f'. cc (f, f')))
                  (λ d. (_, refl, fails-Left md5 c hash b _ o k (ground (arith, d)))))
              (λ m. (_, refl, fails-Left md5 c hash b _ o k (ground (arith, m)))))
          (λ k. (
            _,
            refl,
            record { succeeds = rw (o, k) refl; leaks = rw (o, k) refl; frees = rw (o, k) refl },
          )))
      (λ o. (_, refl, record { succeeds = rw o refl; leaks = rw o refl; frees = rw o refl }))
