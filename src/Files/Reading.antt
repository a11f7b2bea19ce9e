-- ===== src/Files/Reading.antt =====
-- `pread(fd, buf, count, offset)` on an open file, as its manual has it: an error (`none`), or at most
-- `count` of the bytes from `offset` on, and none only when none were asked for or left.
use xtest.Base.{ℕ, ◌≤◌, ◌≡◌, ◌⊎◌, Option, some, List, [], length, take, drop}

abbrev pub Pread : Type 0
Pread = ℕ → ℕ → Option (List ℕ)

pub record IsPread (file : List ℕ) (pread : Pread) : Type 0 where
  pub bounded :
      (count offset : ℕ) (bytes : List ℕ) → pread count offset ≡ some bytes → length bytes ≤ count
  pub faithful :
      (count offset : ℕ) (bytes : List ℕ)
      → pread count offset ≡ some bytes
      → bytes ≡ take (length bytes) (drop offset file)
  pub progress :
      (count offset : ℕ) → pread count offset ≡ some [] → (count ≡ 0) ⊎ (length file ≤ offset)
