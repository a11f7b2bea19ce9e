-- ===== src/CpHash/Copy.antt =====
-- `mkpath`, `md5sum`, `md5sumat`, `fnvpath` and `copy`. Copies to a path outside the destination
-- (a source given by an absolute path) are left out.
use xtest.Base.{
  ℕ, ◌+◌, ◌-◌, ◌%◌, ◌^◌, Bool, false, ◌&&◌, ltb, ◌==◌, if◌then◌else◌, [], ◌∷◌, Option, none, some,
  length, take, Outcome, done, undefined,
}
use xtest.CpHash.Fnv.{fnv32}
use xtest.CpHash.Os.{Bytes, FilePath, Tree, Os}

-- What `nftw` hands over: the path, whether it is a file and a regular one, what it holds, and
-- whether `open` and `mmap` succeed on it.
pub record SourceFile : Type 0 where
  pub path : FilePath
  pub is_file : Bool
  pub is_regular : Bool
  pub content : Bytes
  pub opens : Bool
  pub maps : Bool

abbrev pub st_size : SourceFile → ℕ
st_size f = length f.content

abbrev pub reads : SourceFile → Bool
reads f = f.opens && f.maps

abbrev pub dirname : FilePath → FilePath
dirname [] = []
dirname (x ∷ rest) = rest

-- A count in an `int`, as the comparison with `st_size` widens it.
abbrev pub as_int : ℕ → ℕ
as_int n = let low = n % 2 ^ 32 in if ltb low (2 ^ 31) then low else low + 2 ^ 64 - 2 ^ 32

module _ (os : Os) where
  abbrev pub add_dir : FilePath → Tree → Tree
  add_dir p t = if os.mkdirat t p then record t { dirs = p ∷ t.dirs } else t

  -- Its result is not looked at.
  unfoldable pub mkpath : FilePath → Tree → Tree
  mkpath [] t = t
  mkpath (x ∷ rest) t =
      let made = add_dir (x ∷ rest) (mkpath rest t) in if os.fstatat t (x ∷ rest) then t else made

  module _ (md5 : Bytes → ℕ) where
    -- `none` is the null pointer.
    abbrev pub md5sum : SourceFile → Option ℕ
    md5sum f = if reads f then some (md5 f.content) else none

    abbrev pub fnvpath : SourceFile → ℕ
    fnvpath f = if reads f then fnv32 f.content else 0

    abbrev pub md5sumat : FilePath → Bytes → Option ℕ
    md5sumat p c = elim (os.reread p c) [ none ↦ none | some b ↦ some (md5 b) ]

    abbrev pub put_file : FilePath → Bytes → Tree → Tree
    put_file p c t = record t { files = (p, c) ∷ t.files }

    -- From `strcmp(src_hash, dsthash)` on.
    abbrev pub compare_hash : ℕ → Option ℕ → Tree → Outcome (Bool × Tree)
    compare_hash src_hash none t = undefined
    compare_hash src_hash (some dst_hash) t = done (src_hash == dst_hash, t)

    -- From `pwrite` on.
    abbrev pub write_file : SourceFile → ℕ → Option ℕ → Tree → Outcome (Bool × Tree)
    write_file f src_hash none t = done (false, put_file f.path [] t)
    write_file f src_hash (some n) t =
        let c = take n f.content in
        if as_int n == st_size f
        then compare_hash src_hash (md5sumat f.path c) (put_file f.path c t)
        else done (false, put_file f.path c t)

    -- Whether it returned 0, and the destination.
    unfoldable pub copy : SourceFile → ℕ → Tree → Outcome (Bool × Tree)
    copy f src_hash t =
        let made = mkpath (dirname f.path) t in
        if reads f
        then (if os.openat made f.path
            then write_file f src_hash (os.pwrite f.path f.content) made
            else done (false, made))
        else done (false, t)
