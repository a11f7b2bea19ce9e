-- ===== src/Files/Zerorun/Correct.antt =====
-- What zerorun prints for a file.
use xtest.Base.{
  ℕ, zero, suc, ◌+◌, ◌*◌, ◌/◌, ◌^◌, ◌<◌, ◌≡◌, ◌==◌, Bool, true, List, [], some, arith, refl, ◌∙◌,
  ◌↔◌, length, take, drop, length-take, length-drop, inl, subst,
}
use xtest.Files.Reading.{Pread}
use xtest.Files.Zerorun.{sum, unset, Scan, note_block, scan_loop, zerorun}
use xtest.Files.Zerorun.Block.{all_zero, sum-all_zero}
use mathlib.Core.Path.{fun_ext}
use xtest.Files.Zerorun.Runs.{member, IsRun, Noted, Noted-note_block}

abbrev pub block : List ℕ → ℕ → List ℕ
block file k = take 512 (drop (k * 512) file)

-- What `sum` says of block k.
abbrev pub zeroed : List ℕ → ℕ → Bool
zeroed file k = sum (block file k) 512 == 0

-- Whether every byte of block k is 0.
abbrev pub blank : List ℕ → ℕ → Bool
blank file k = all_zero (block file k)

module _ (file : List ℕ) (pread : Pread) where
  scan_step :
      (left n : ℕ) (s : Scan)
      → length (block file n) ≡ 512
      → pread 512 (n * 512) ≡ some (block file n)
      → scan_loop pread (suc left) n s
        ≡ scan_loop pread left (n + 1) (note_block n (zeroed file n) s)
  unfolding scan_loop
  scan_step left n s len r = rw (scan_loop, r, len) refl

  block-length : (n : ℕ) → n < length file / 512 → length (block file n) ≡ 512
  block-length n h =
      omega (arith, length-take 512 (drop (n * 512) file), length-drop (n * 512) file)

  scan_end : (n : ℕ) (s : Scan) → scan_loop pread 0 n s ≡ (0, s.printed)
  unfolding scan_loop
  scan_end n s = refl

  scan_loop-Noted :
      (left n : ℕ) (s : Scan)
      → ((k : ℕ) → k < length file / 512 → pread 512 (k * 512) ≡ some (block file k))
      → length file < 2 ^ 64
      → n + left ≡ length file / 512
      → Noted (zeroed file) n s
      → (after : Scan) × (scan_loop pread left n s ≡ (0, after.printed))
        × Noted (zeroed file) (length file / 512) after
  scan_loop-Noted zero n s full small e v =
      let same : n ≡ length file / 512 = omega arith in
      (s, scan_end n s, subst (λ t. Noted (zeroed file) t s) same v)
  scan_loop-Noted (suc left) n s full small e v =
      let (after, r, w) =
        scan_loop-Noted left (n + 1) (note_block n (zeroed file n) s) full small (omega arith)
          (Noted-note_block (zeroed file) n s (omega arith) v) in
      (after, scan_step left n s (block-length n (omega arith)) (full n (omega arith)) ∙ r, w)

  fresh-Noted : Noted (zeroed file) 0 (record { start = unset; end = unset; printed = [] })
  fresh-Noted = record {
    state = inl (refl, inl refl);
    complete = λ a b r. absurd (omega (arith, r.inside));
    sound = λ a b m. absurd (ground arith);
  }

  blank-zeroed : zeroed file ≡ blank file
  blank-zeroed =
      fun_ext
        λ k. sum-all_zero (block file k) (omega (arith, length-take 512 (drop (k * 512) file)))

  -- For a file of fewer than 2^64 bytes whose whole blocks are read in full: zerorun exits with 0,
  -- and prints a pair (a, b) exactly when blocks a to b, both included, form a maximal run of
  -- blocks whose bytes are all 0 and b is not the last block; a run at the end of the file is not
  -- printed.
  pub zerorun_lem :
      ((k : ℕ) → k < length file / 512 → pread 512 (k * 512) ≡ some (block file k))
      → length file < 2 ^ 64
      → (printed : List (ℕ × ℕ)) × (zerorun pread (length file) ≡ (0, printed))
        × ((a b : ℕ) → (member a b printed ≡ true) ↔ IsRun (blank file) (length file / 512) a b)
  unfolding zerorun
  zerorun_lem full small =
      let (after, e, v) =
        scan_loop-Noted (length file / 512) 0 _ full small (omega arith) fresh-Noted in
      let runs =
        subst (λ z. (a b : ℕ) → (member a b after.printed ≡ true) ↔ IsRun z (length file / 512) a b)
          blank-zeroed (λ a b. (v.sound a b, v.complete a b)) in
      (after.printed, e, runs)
