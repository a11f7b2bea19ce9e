-- ===== src/Files/Out.antt =====
-- out.c: the bytes of a file from one offset to another, in chunks.
pub mod Correct
use xtest.Base.{
  ℕ, zero, suc, ◌+◌, ◌-◌, ◌%◌, ◌^◌, ◌≤◌, ◌<◌, ◌≡◌, ltb, not, if◌then◌else◌, List, [], ◌∷◌, ◌++◌,
  Option, none, some, length, Outcome, done, timeout, require, u32, u64,
}
use xtest.Files.Reading.{Pread}

abbrev pub chunk : ℕ
chunk = 131072

-- `x = end - i` goes through an `int`; one that is negative is a count past the buffer.
unfoldable pub next_count : ℕ → ℕ → ℕ → ℕ
next_count i end x = if ltb end (u64 (i + chunk)) then u32 (end + 2 ^ 64 - i) else x

-- What is handed to `write(1, ...)`, whose result the code does not look at.
unfoldable pub out_loop : Pread → ℕ → ℕ → ℕ → ℕ → List ℕ → Outcome (List ℕ)
out_loop pread zero i end x written = timeout
out_loop pread (suc fuel) i end x written =
    let count = next_count i end x in
    require (not (ltb chunk count)) (elim (pread count i) [
      | none ↦ done written
      | some bytes ↦ elim bytes [
        | [] ↦ done written
        | b ∷ rest ↦ out_loop pread fuel (i + length (b ∷ rest)) end count (written ++ b ∷ rest)
      ]
    ])

unfoldable pub out : Pread → ℕ → ℕ → Outcome (List ℕ)
out pread start end = out_loop pread (suc (end - start)) start end chunk []
