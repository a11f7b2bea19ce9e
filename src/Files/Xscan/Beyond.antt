-- ===== src/Files/Xscan/Beyond.antt =====
-- The scan leaves its buffer.
use xtest.Base.{
  ℕ, zero, suc, ◌+◌, ◌≤◌, ◌<◌, ◌≡◌, true, false, ltb, ◌==◌, List, ◌∷◌, none, some, length, get_or,
  done, undefined, arith, refl, ap, ◌∙◌,
}
use xtest.Files.Reading.{Pread}
use xtest.Files.Xscan.{buf_a_size, scan_chunk, xscan_loop, xscan}

-- In the first chunk the offsets are right: zeros are passed over.
zeros-scan_chunk :
    (rounds j : ℕ) (bytes : List ℕ)
    → j + rounds ≤ buf_a_size
    → ((k : ℕ) → get_or bytes k 0 ≡ 0)
    → scan_chunk rounds 0 j bytes ≡ done none
unfolding scan_chunk
zeros-scan_chunk zero j bytes fits zeros = refl
zeros-scan_chunk (suc rounds) j bytes fits zeros =
    let inside : ltb (0 + j) buf_a_size ≡ true = ground arith in
    rw (inside, zeros (0 + j)) (zeros-scan_chunk rounds (j + 1) bytes (omega arith) zeros)

zeros_round :
    (pread : Pread) (fuel st_size i : ℕ) (bytes : List ℕ)
    → i < st_size
    → pread buf_a_size i ≡ some bytes
    → 0 < length bytes
    → scan_chunk (length bytes) i 0 bytes ≡ done none
    → xscan_loop pread (suc fuel) st_size i ≡ xscan_loop pread fuel st_size (i + length bytes)
unfolding xscan_loop
zeros_round pread fuel st_size i bytes lt read some_bytes seen =
    let before : ltb i st_size ≡ true = ground arith in
    let nonzero : (length bytes == 0) ≡ false = ground arith in
    rw (xscan_loop, before, read, seen, nonzero) refl

past_end :
    (pread : Pread) (fuel st_size i b : ℕ) (more : List ℕ)
    → i < st_size
    → buf_a_size ≤ i
    → pread buf_a_size i ≡ some (b ∷ more)
    → xscan_loop pread (suc fuel) st_size i ≡ undefined
unfolding xscan_loop scan_chunk
past_end pread fuel st_size i b more lt beyond read =
    let before : ltb i st_size ≡ true = ground arith in
    let outside : ltb (i + 0) buf_a_size ≡ false = ground arith in
    rw (xscan_loop, before, read, outside) refl

-- For a file longer than the buffer, of which a first read gives a buffer full of zeros, and a second a
-- byte or more, the second chunk's first access is past the end of the buffer.
pub xscan_lem :
    (pread : Pread) (st_size b : ℕ) (bytes more : List ℕ)
    → buf_a_size < st_size
    → pread buf_a_size 0 ≡ some bytes
    → length bytes ≡ buf_a_size
    → ((k : ℕ) → get_or bytes k 0 ≡ 0)
    → pread buf_a_size (length bytes) ≡ some (b ∷ more)
    → xscan pread st_size ≡ undefined
unfolding xscan
xscan_lem pread zero b bytes more long first full zeros second = absurd (omega arith)
xscan_lem pread (suc n) b bytes more long first full zeros second =
    zeros_round pread (suc n) (suc n) 0 bytes (omega arith) first (omega arith)
      (zeros-scan_chunk (length bytes) 0 bytes (omega arith) zeros)
    ∙ past_end pread n (suc n) (0 + length bytes) b more (omega arith) (omega arith)
        (ap (pread buf_a_size) (omega arith) ∙ second)
