-- ===== src/Files/Xscan.antt =====
-- xscan.c: looks for the first byte of a file that is not 0, in chunks.
pub mod Beyond
use xtest.Base.{
  ℕ, zero, suc, ◌+◌, ltb, ◌==◌, if◌then◌else◌, List, [], ◌∷◌, Option, none, some, length, get_or,
  Outcome, done, timeout, ◌>>=◌, require,
}
use xtest.Files.Reading.{Pread}

abbrev pub buf_a_size : ℕ
buf_a_size = 1048576

-- What the program comes to: it returns -4, prints nothing, or prints an offset.
pub data ScanEnd : Type 0 where
  failed : ScanEnd
  clean : ScanEnd
  found : ℕ → ScanEnd

-- `for (j = 0; j < rc_a; j++)` over a buffer that holds `bytes` and then zeros: the offset printed.
unfoldable pub scan_chunk : ℕ → ℕ → ℕ → List ℕ → Outcome (Option ℕ)
scan_chunk zero i j bytes = done none
scan_chunk (suc rounds) i j bytes =
    let rest = scan_chunk rounds i (j + 1) bytes in
    require (ltb (i + j) buf_a_size)
      (if get_or bytes (i + j) 0 == 0 then rest else done (some (i + j)))

abbrev pub after_chunk : Outcome ScanEnd → Option ℕ → Outcome ScanEnd
after_chunk rest none = rest
after_chunk rest (some offset) = done (found offset)

-- `for (i = 0; i < s_a.st_size;)`
unfoldable pub xscan_loop : Pread → ℕ → ℕ → ℕ → Outcome ScanEnd
xscan_loop pread zero st_size i = timeout
xscan_loop pread (suc fuel) st_size i =
    let round : Outcome ScanEnd = elim (pread buf_a_size i) [
      | none ↦ done failed
      | some bytes ↦ (do
        seen ← scan_chunk (length bytes) i 0 bytes
        let more = xscan_loop pread fuel st_size (i + length bytes)
        after_chunk (if length bytes == 0 then done clean else more) seen)
    ] in
    if ltb i st_size then round else done clean

unfoldable pub xscan : Pread → ℕ → Outcome ScanEnd
xscan pread st_size = xscan_loop pread (suc st_size) st_size 0
