-- ===== src/Files/Zerorun.antt =====
-- zerorun.c: the runs of zeroed 512-byte blocks.
pub mod Block
pub mod Runs
pub mod Correct
use xtest.Base.{
  ℕ, zero, suc, ◌+◌, ◌-◌, ◌*◌, ◌/◌, ◌^◌, ◌==◌, Bool, not, if◌then◌else◌, List, [], ◌∷◌, ◌++◌,
  Option, none, some, length, get_or,
}
use xtest.Files.Reading.{Pread}

-- `count` bytes from `offset` on, read as one little-endian number.
unfoldable pub word : List ℕ → ℕ → ℕ → ℕ
word buf offset zero = 0
word buf offset (suc count) = get_or buf offset 0 + 256 * word buf (offset + 1) count

-- The loop of `sum` over the next words, from `buf[i]` on.
unfoldable pub sum_loop : List ℕ → ℕ → ℕ → ℕ
sum_loop buf zero i = 0
sum_loop buf (suc words) i = if word buf (8 * i) 8 == 0 then sum_loop buf words (i + 1) else 1

unfoldable pub sum : List ℕ → ℕ → ℕ
sum buf len = sum_loop buf (len / 8) 0

-- -1 as a `uint64_t`
abbrev pub unset : ℕ
unset = 2 ^ 64 - 1

-- The exit code, and the pairs that were printed.
abbrev pub Report : Type 0
Report = ℕ × List (ℕ × ℕ)

-- What `main` does with one block, given what `sum` found: the new `start` and `end`, and what is
-- printed by then.
pub record Scan : Type 0 where
  pub start : ℕ
  pub end : ℕ
  pub printed : List (ℕ × ℕ)

unfoldable pub note_block : ℕ → Bool → Scan → Scan
note_block n zeroed s =
    if zeroed
    then (if s.start == unset then record s { start = n; end = n } else record s { end = n })
    else (if s.start == unset
        then s
        else record { start = unset; end = unset; printed = s.printed ++ (s.start, s.end) ∷ [] })

unfoldable pub scan_loop : Pread → ℕ → ℕ → Scan → Report
scan_loop pread zero n s = (0, s.printed)
scan_loop pread (suc left) n s = elim (pread 512 (n * 512)) [
  | none ↦ (2, s.printed)
  | some buf ↦
      let rest = scan_loop pread left (n + 1) (note_block n (sum buf 512 == 0) s) in
      if length buf == 512 then rest else (2, s.printed)
]

-- From the size that `ioctl` or `fstat` gave.
unfoldable pub zerorun : Pread → ℕ → Report
zerorun pread size =
    scan_loop pread (size / 512) 0 (record { start = unset; end = unset; printed = [] })
