-- ===== src/Files/Append0.antt =====
-- append0.c: adds one file's bytes at the end of another, in chunks. The two files are different
-- ones.
pub mod Shifted
use xtest.Base.{
  ℕ, zero, suc, ◌+◌, ◌-◌, ◌^◌, ltb, ◌==◌, Bool, true, false, if◌then◌else◌, List, [], ◌∷◌, ◌++◌,
  Option, none, some, length, take, drop, replicate, Outcome, done, timeout, require,
}
use xtest.Files.Reading.{Pread}

abbrev pub buf_size : ℕ
buf_size = 262144

-- `ftruncate(dst, n)`: cut, or filled up with zeros.
abbrev pub truncated : ℕ → List ℕ → List ℕ
truncated n file = take n (file ++ replicate n 0)

-- What a file holds once `bytes` are written at an offset.
abbrev pub written_at : ℕ → List ℕ → List ℕ → List ℕ
written_at offset bytes file = truncated offset file ++ (bytes ++ drop (offset + length bytes) file)

-- `pwrite(dst, buf, count, offset)`: an error, or how many of the bytes were written.
abbrev pub Pwrite : Type 0
Pwrite = List ℕ → ℕ → List ℕ → Option ℕ

-- `for (;;)`: whether the end of `main` is reached, and the destination.
unfoldable pub append_loop : Pread → Pwrite → ℕ → List ℕ → ℕ → ℕ → Outcome (Bool × List ℕ)
append_loop pread pwrite zero dst off_out off_in = timeout
append_loop pread pwrite (suc fuel) dst off_out off_in = elim (pread buf_size off_in) [
  | none ↦ done (false, dst)
  | some bytes ↦ elim bytes [
    | [] ↦ done (true, dst)
    | b ∷ more ↦
        let buf = b ∷ more in
        let off = off_in + length buf in
        elim (pwrite dst (off_out + off) buf) [
          | none ↦ done (false, dst)
          | some rc ↦
              let out = written_at (off_out + off) (take rc buf) dst in
              let rest = append_loop pread pwrite fuel out off_out off in
              if rc == length buf then rest else done (false, out)
        ]
  ]
]

-- `main` once both files are open. The sum of the sizes is signed.
unfoldable pub append0 : Pread → Pwrite → Bool → ℕ → List ℕ → List ℕ → Outcome (Bool × List ℕ)
append0 pread pwrite ftruncate_ok fuel dst src =
    let newsz = length dst + length src in
    let copied = append_loop pread pwrite fuel (truncated newsz dst) (length dst) 0 in
    require (ltb newsz (2 ^ 63)) (
      if ltb newsz (length dst)
      then done (false, dst)
      else if ftruncate_ok
      then copied
      else done (false, dst))
