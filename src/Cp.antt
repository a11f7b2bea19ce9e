-- ===== src/Cp.antt =====
-- cp.c: `copy_file` and `copy_file_hash`, which copy a file through two mappings and compare hashes.
-- MD5 is a parameter. The source's path matters only by what the calls on it give.
pub mod Effects
pub mod Whole
pub mod Tests
use xtest.Base.{
  ℕ, Bool, true, false, not, ◌&&◌, ◌==◌, if◌then◌else◌, List, [], ◌∷◌, Option, none, some, Outcome,
  done, undefined, bit_and,
}
use xtest.CpHash.Os.{Bytes, FilePath, Tree}

-- How each call goes, in the order of the calls; `reread` is what `md5sum(dst)` reads.
pub record Calls : Type 0 where
  pub opens : Bool
  pub creats : Bool
  pub stats_src : Bool
  pub stats_dst : Bool
  pub st_mode : ℕ
  pub maps_src : Bool
  pub content : Bytes
  pub fallocates : Bool
  pub maps_dst : Bool
  pub reread : Bytes → Option Bytes

pub data Descriptor : Type 0 where
  from_fd : Descriptor
  to_fd : Descriptor

-- When a function returns: whether it returned 0, the descriptors that it opened and did not close,
-- the files, and whether it freed the string `srchash`, which its caller owns.
pub record After : Type 0 where
  pub ok : Bool
  pub open_fds : List Descriptor
  pub tree : Tree
  pub hash_freed : Bool

abbrev pub fails : List Descriptor → Tree → After
fails fds t = record { ok = false; open_fds = fds; tree = t; hash_freed = false }

abbrev pub both_fds : List Descriptor
both_fds = from_fd ∷ to_fd ∷ []

abbrev pub holding : FilePath → Bytes → Tree → Tree
holding p c t = record t { files = (p, c) ∷ t.files }

-- `st_mode & S_IFREG`
abbrev pub has_ifreg : ℕ → Bool
has_ifreg mode = not (bit_and mode 0x8000 == 0)

-- What `posix_fallocate` makes of a new file.
abbrev pub zeroed_bytes : Bytes → Bytes
zeroed_bytes [] = []
zeroed_bytes (x ∷ rest) = 0 ∷ zeroed_bytes rest

abbrev pub fallocated : Calls → FilePath → Tree → Tree
fallocated c dst t = if c.fallocates then holding dst (zeroed_bytes c.content) t else t

module _ (md5 : Bytes → ℕ) where
  -- From `md5sum(dst)` on. `strcmp` on a null pointer is undefined.
  abbrev pub compare_md5 : Bool → ℕ → Option Bytes → Tree → Outcome After
  compare_md5 frees src_md5 none t = undefined
  compare_md5 frees src_md5 (some b) t =
      if src_md5 == md5 b
      then done (record { ok = true; open_fds = []; tree = t; hash_freed = false })
      else done (record { ok = false; open_fds = []; tree = t; hash_freed = frees })

  -- From the second `mmap` on. The result of `posix_fallocate` is not looked at: where it fails, the
  -- new file has no pages for `bcopy` to write to.
  abbrev pub fill : Calls → Bool → ℕ → FilePath → Tree → Outcome After
  fill c frees src_md5 dst t =
      let filled = compare_md5 frees src_md5 (c.reread c.content) (holding dst c.content t) in
      if c.maps_dst then (if c.fallocates then filled else undefined) else done (fails both_fds t)

  -- From the first `fstat` on.
  abbrev pub check_and_fill : Calls → Bool → ℕ → FilePath → Tree → Outcome After
  check_and_fill c frees src_md5 dst t =
      if c.stats_src && (c.stats_dst && (has_ifreg c.st_mode && c.maps_src))
      then fill c frees src_md5 dst (fallocated c dst t)
      else done (fails both_fds t)

  abbrev pub open_both : Calls → Bool → ℕ → FilePath → Tree → Outcome After
  open_both c frees src_md5 dst t =
      if c.opens
      then (if c.creats
          then check_and_fill c frees src_md5 dst (holding dst [] t)
          else done (fails [] t))
      else done (fails [] t)

  -- Its own string of the source's hash is freed on both ways out.
  unfoldable pub copy_file : Calls → FilePath → Tree → Outcome After
  copy_file c dst t = open_both c false (md5 c.content) dst t

  unfoldable pub copy_file_hash : Calls → FilePath → ℕ → Tree → Outcome After
  copy_file_hash c dst srchash t = open_both c true srchash dst t
