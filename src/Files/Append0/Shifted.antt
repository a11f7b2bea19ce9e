-- ===== src/Files/Append0/Shifted.antt =====
-- Each chunk is written its own length too far.
use mathlib.Core.List.{append_assoc}
use xtest.Base.{
  ℕ, zero, suc, ◌+◌, ◌-◌, ◌^◌, ◌≤◌, ◌<◌, ◌≡◌, ltb, Bool, true, List, [], ◌∷◌, ◌++◌, none, some,
  length, take, drop, replicate, Outcome, done, arith, refl, ap, ◌≢◌, subst, ◌∙◌, sym, inl, inr,
  length-append, min, length-take, length-drop, length-replicate, take-append_le, take-take_le,
  Option-cases, List-cases,
}
use xtest.Files.Reading.{Pread, IsPread}
use xtest.Files.Append0.{buf_size, truncated, written_at, Pwrite, append_loop, append0}

length-truncated : (n : ℕ) (file : List ℕ) → length (truncated n file) ≡ n
length-truncated n file = omega (
  arith,
  length-take n (file ++ replicate n 0),
  length-append file (replicate n 0),
  length-replicate {A = ℕ} n 0,
)

-- What stands before the offset stays.
take-written_at :
    (p offset : ℕ) (bytes file : List ℕ)
    → p ≤ offset
    → p ≤ length file
    → take p (written_at offset bytes file) ≡ take p file
take-written_at p offset bytes file le inside =
    take-append_le p (truncated offset file) (bytes ++ drop (offset + length bytes) file)
      (omega (arith, length-truncated offset file))
    ∙ take-take_le p offset (file ++ replicate offset 0) le
    ∙ take-append_le p file (replicate offset 0) inside

length-written_at :
    (offset : ℕ) (bytes file : List ℕ)
    → offset + length bytes ≤ length (written_at offset bytes file)
length-written_at offset bytes file =
    let rest = drop (offset + length bytes) file in
    omega (
      arith,
      length-truncated offset file,
      length-append (truncated offset file) (bytes ++ rest),
      length-append bytes rest,
    )

-- A run that comes to the end with a result that has the property.
Ended : Outcome (Bool × List ℕ) → (List ℕ → Type 0) → Type 0
Ended run P = (out : List ℕ) × (run ≡ done (true, out)) × P out

take-whole : (xs : List ℕ) → take (length xs) xs ≡ xs
take-whole [] = refl
take-whole (x ∷ xs) = ap (λ t. x ∷ t) (take-whole xs)

take-append_add : (n : ℕ) (xs ys : List ℕ) → take (length xs + n) (xs ++ ys) ≡ xs ++ take n ys
take-append_add n [] ys = ap (λ k. take k ys) (omega arith)
take-append_add n (x ∷ xs) ys =
    let e : suc (length xs) + n ≡ suc (length xs + n) = omega arith in
    rw e (ap (λ t. x ∷ t) (take-append_add n xs ys))

take-replicate : (n m : ℕ) → n ≤ m → take n (replicate m 0) ≡ replicate {A = ℕ} n 0
take-replicate zero m le = refl
take-replicate (suc n) zero le = absurd (omega arith)
take-replicate (suc n) (suc m) le = ap (λ t. 0 ∷ t) (take-replicate n m (omega arith))

-- What `ftruncate` leaves after the old bytes.
zeros_follow :
    (dst : List ℕ) (more n : ℕ)
    → n ≤ more
    → take (length dst + n) (truncated (length dst + more) dst) ≡ dst ++ replicate n 0
zeros_follow dst more n le =
    take-take_le (length dst + n) (length dst + more) (dst ++ replicate (length dst + more) 0)
      (omega arith)
    ∙ take-append_add n dst (replicate (length dst + more) 0)
    ∙ ap (λ t. dst ++ t) (take-replicate n (length dst + more) (omega arith))

-- The first byte that is written at an offset comes right after what stands before it.
take-first_written :
    (offset b : ℕ) (more file : List ℕ)
    → offset ≤ length file
    → take (offset + 1) (written_at offset (b ∷ more) file) ≡ take offset file ++ b ∷ []
take-first_written offset b more file inside =
    let before = truncated offset file in
    let after = b ∷ more ++ drop (offset + length (b ∷ more)) file in
    let n = length-truncated offset file in
    let place : take (offset + 1) (before ++ after) ≡ take (length before + 1) (before ++ after) =
      ap (λ k. take (k + 1) (before ++ after)) (sym n) in
    place
    ∙ take-append_add 1 before after
    ∙ ap (λ xs. xs ++ b ∷ []) (take-append_le offset file (replicate offset 0) inside)

module _ (pread : Pread) (pwrite : Pwrite) (src : List ℕ) (v : IsPread src pread)
    (reads : (count off : ℕ) → pread count off ≢ none)
    (writes : (file : List ℕ) (off : ℕ) (bytes : List ℕ)
      → pwrite file off bytes ≡ some (length bytes)) where
  read_inside :
      (off b : ℕ) (more : List ℕ)
      → pread buf_size off ≡ some (b ∷ more)
      → off + length (b ∷ more) ≤ length src
  read_inside off b more got =
      let e = v.faithful buf_size off (b ∷ more) got in
      let n = length (b ∷ more) in
      let short : n ≡ min n (length src - off) =
        ap length e ∙ length-take n (drop off src) ∙ ap (min n) (length-drop off src) in
      omega (arith, short)

  written_whole :
      (fuel : ℕ) (dst : List ℕ) (base off b : ℕ) (more : List ℕ)
      → (let off' = off + length (b ∷ more) in
          pread buf_size off ≡ some (b ∷ more)
          → pwrite dst (base + off') (b ∷ more) ≡ some (length (b ∷ more))
          → append_loop pread pwrite (suc fuel) dst base off
            ≡ append_loop pread pwrite fuel (written_at (base + off') (b ∷ more) dst) base off')
  unfolding append_loop
  written_whole fuel dst base off b more got put =
      rw (append_loop, got, put, take-whole more) (ground arith)

  -- One chunk: the loop stops, or goes on with the chunk written past its place.
  next_chunk :
      (fuel : ℕ) (dst : List ℕ) (base off : ℕ) (P : List ℕ → Type 0)
      → (length src ≤ off → P dst)
      → ((b : ℕ) (more : List ℕ)
          → off + length (b ∷ more) ≤ length src
          → Ended
              (append_loop pread pwrite fuel
                (written_at (base + (off + length (b ∷ more))) (b ∷ more) dst)
                base
                (off + length (b ∷ more)))
              P)
      → Ended (append_loop pread pwrite (suc fuel) dst base off) P
  unfolding append_loop Ended
  next_chunk fuel dst base off P stop go = elim (Option-cases (pread buf_size off)) [
    | inl failed ↦ absurd (reads buf_size off failed)
    | inr (bytes, got) ↦ elim (List-cases bytes) [
      | inl empty ↦
          let got' : pread buf_size off ≡ some [] = rw (← empty) got in
          (dst, rw (append_loop, got') refl, stop (ground (arith, v.progress buf_size off got')))
      | inr (b, more, full) ↦
          let got' : pread buf_size off ≡ some (b ∷ more) = rw (← full) got in
          let put = writes dst (base + (off + length (b ∷ more))) (b ∷ more) in
          subst (λ r. Ended r P) (sym (written_whole fuel dst base off b more got' put))
            (go b more (read_inside off b more got'))
    ]
  ]

  -- From the second chunk on, what stands before the place of the first one stays.
  loop-Ended :
      (fuel : ℕ) (dst : List ℕ) (base off p : ℕ)
      → length src < off + fuel
      → off ≤ length src
      → p ≤ base + off + 1
      → base + off < length dst
      → Ended
          (append_loop pread pwrite fuel dst base off)
          (λ out. (take p out ≡ take p dst) × (base + length src < length out))
  unfolding Ended
  loop-Ended zero dst base off p enough part before inside = absurd (omega arith)
  loop-Ended (suc fuel) dst base off p enough part before inside =
      next_chunk fuel dst base off
        (λ out. (take p out ≡ take p dst) × (base + length src < length out))
        (λ all. (refl, omega arith))
        (λ b more fits.
          let off' = off + length (b ∷ more) in
          let next = written_at (base + off') (b ∷ more) dst in
          let long = length-written_at (base + off') (b ∷ more) dst in
          let kept = take-written_at p (base + off') (b ∷ more) dst (omega arith) (omega arith) in
          let r = loop-Ended fuel next base off' p (omega arith) fits (omega arith) (omega arith) in
          (r.0, r.1, (r.2.0 ∙ kept, r.2.1)))

  -- Where no read fails and every write is whole, a source that is not empty, and whose size with the
  -- destination's fits in a signed 64-bit number, is never appended. The run comes to its end: the old
  -- bytes are followed by as many zeros as the first read had bytes, and only then by the first of
  -- those bytes, and the file is larger than the two sizes together.
  pub append0_lem :
      (dst : List ℕ) (b : ℕ) (more : List ℕ)
      → pread buf_size 0 ≡ some (b ∷ more)
      → length dst + length src < 2 ^ 63
      → (out : List ℕ) × (append0 pread pwrite true (suc (length src)) dst src ≡ done (true, out))
        × (take (length dst + (length (b ∷ more) + 1)) out
            ≡ dst ++ (replicate (length (b ∷ more)) 0 ++ b ∷ []))
        × (length dst + length src < length out)
  unfolding append0 Ended
  append0_lem dst b more got small =
      let size = length dst in
      let n = length (b ∷ more) in
      let fits = read_inside 0 b more got in
      let first = truncated (size + length src) dst in
      let whole = length-truncated (size + length src) dst in
      let next = written_at (size + (0 + n)) (b ∷ more) first in
      let long = length-written_at (size + (0 + n)) (b ∷ more) first in
      let (out, ends, (kept, larger)) =
        loop-Ended (length src) next size (0 + n) (size + (0 + n) + 1) (omega arith) fits
          (omega arith) (omega arith) in
      let below : ltb (size + length src) (2 ^ 63) ≡ true = ground arith in
      let opened : append0 pread pwrite true (suc (length src)) dst src
          ≡ append_loop pread pwrite (suc (length src)) first size 0 =
        rw (below) (ground arith) in
      let put = writes first (size + (0 + n)) (b ∷ more) in
      let place : take (size + (n + 1)) out ≡ take (size + (0 + n) + 1) out =
        ap (λ (k : ℕ). take k out) (omega arith) in
      (
        out,
        opened ∙ written_whole (length src) first size 0 b more got put ∙ ends,
        place
            ∙ kept
            ∙ take-first_written (size + (0 + n)) b more first (omega arith)
            ∙ ap (λ (k : ℕ). take (size + k) first ++ b ∷ []) (omega arith)
            ∙ ap (λ xs. xs ++ b ∷ []) (zeros_follow dst (length src) n (omega arith))
            ∙ append_assoc dst (replicate n 0) (b ∷ []),
        larger,
      )
