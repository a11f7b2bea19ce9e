-- ===== src/Files/Out/Correct.antt =====
-- What `out` writes.
use xtest.Base.{
  ℕ, zero, suc, false, ◌+◌, ◌-◌, ◌^◌, ◌≤◌, ◌<◌, ◌≡◌, ◌⊎◌, inl, inr, ltb, if◌then◌else◌, List, [],
  ◌∷◌, ◌++◌, some, length, done, take, drop, drop-drop, drop-all, take-nil, take-append-take, arith,
  refl, ap, ◌∙◌, sym, dec_lt, subst, List-cases,
}
use mathlib.Core.List.{append_assoc, append-nil}
use mathlib.Core.Path.{ap₂}
use xtest.Files.Reading.{Pread, IsPread}
use xtest.Files.Out.{chunk, next_count, out_loop, out}

-- The count the loop asks for.
abbrev wanted : ℕ → ℕ → ℕ
wanted i end = if ltb end (i + chunk) then end - i else chunk

next_count_lem :
    (i end x : ℕ)
    → i ≤ end
    → end < 2 ^ 63
    → (x ≡ chunk) ⊎ (end < i + chunk)
    → next_count i end x ≡ wanted i end
unfolding next_count
next_count_lem i end x h small (inl e) = ground (arith, e)
next_count_lem i end x h small (inr e) = ground arith

later : (i end n : ℕ) → (wanted i end ≡ chunk) ⊎ (end < i + n + chunk)
later i end n = elim (dec_lt end (i + chunk)) [
  | yes near ↦ inr (omega arith)
  | no far ↦ inl (ground arith)
]

fits : (c : ℕ) → c ≤ chunk → ltb chunk c ≡ false
fits c le = ground arith

module _ (file : List ℕ) (pread : Pread) (v : IsPread file pread) where
  loop_stop :
      (fuel i end x c : ℕ) (written : List ℕ)
      → next_count i end x ≡ c
      → c ≤ chunk
      → pread c i ≡ some []
      → out_loop pread (suc fuel) i end x written ≡ done written
  unfolding out_loop
  loop_stop fuel i end x c written e le r = rw (e, fits c le, r) refl

  counted_step :
      (fuel i end x b : ℕ) (rest written : List ℕ)
      → next_count i end x ≤ chunk
      → pread (next_count i end x) i ≡ some (b ∷ rest)
      → out_loop pread (suc fuel) i end x written
        ≡ out_loop pread fuel (i + length (b ∷ rest)) end (next_count i end x) (written ++ b ∷ rest)
  unfolding out_loop
  counted_step fuel i end x b rest written le r = rw (fits (next_count i end x) le, r) refl

  loop_step :
      (fuel i end x c b : ℕ) (rest written : List ℕ)
      → next_count i end x ≡ c
      → c ≤ chunk
      → pread c i ≡ some (b ∷ rest)
      → out_loop pread (suc fuel) i end x written
        ≡ out_loop pread fuel (i + length (b ∷ rest)) end c (written ++ b ∷ rest)
  loop_step fuel i end x c b rest written e =
      subst
        (λ t.
          t ≤ chunk
          → pread t i ≡ some (b ∷ rest)
          → out_loop pread (suc fuel) i end x written
            ≡ out_loop pread fuel (i + length (b ∷ rest)) end t (written ++ b ∷ rest))
        e (counted_step fuel i end x b rest written)

  nothing_left :
      (i end : ℕ)
      → i ≤ end
      → (wanted i end ≡ 0) ⊎ (length file ≤ i)
      → take (end - i) (drop i file) ≡ []
  nothing_left i end h (inl e) =
      let none_left : end - i ≡ 0 = ground arith in ap (λ t. take t (drop i file)) none_left
  nothing_left i end h (inr past) = ap (take (end - i)) (drop-all i file past) ∙ take-nil (end - i)

  next_part :
      (i end : ℕ) (bytes : List ℕ)
      → length bytes ≤ end - i
      → bytes ≡ take (length bytes) (drop i file)
      → bytes ++ take (end - (i + length bytes)) (drop (i + length bytes) file)
        ≡ take (end - i) (drop i file)
  next_part i end bytes le e =
      ap (λ t. t ++ take (end - (i + length bytes)) (drop (i + length bytes) file)) e
      ∙ ap₂ (λ t u. take (length bytes) (drop i file) ++ take t u) (omega arith)
          (sym (drop-drop i (length bytes) file))
      ∙ take-append-take (length bytes) (end - i) (drop i file) le

  out_loop_lem :
      (fuel i end x : ℕ) (written : List ℕ)
      → i ≤ end
      → end < 2 ^ 63
      → (x ≡ chunk) ⊎ (end < i + chunk)
      → end - i < fuel
      → ((count offset : ℕ) → (bytes : List ℕ) × (pread count offset ≡ some bytes))
      → out_loop pread fuel i end x written ≡ done (written ++ take (end - i) (drop i file))
  out_loop_lem zero i end x written h small st enough reads = absurd (omega arith)
  out_loop_lem (suc fuel) i end x written h small st enough reads =
      let c = wanted i end in
      let count : next_count i end x ≡ c = next_count_lem i end x h small st in
      let fit : c ≤ chunk = ground arith in
      let within : c ≤ end - i = ground arith in
      let (bytes, r0) = reads c i in
      elim (List-cases bytes) [
        | inl e ↦
            let r = r0 ∙ ap some e in
            loop_stop fuel i end x c written count fit r
            ∙ ap done (
                sym (append-nil written)
                ∙ ap (λ t. written ++ t) (sym (nothing_left i end h (v.progress c i r))))
        | inr (b, rest, e) ↦
            let r = r0 ∙ ap some e in
            let short = v.bounded c i (b ∷ rest) r in
            loop_step fuel i end x c b rest written count fit r
            ∙ out_loop_lem fuel (i + length (b ∷ rest)) end c (written ++ b ∷ rest) (omega arith)
                small (later i end (length (b ∷ rest))) (omega arith) reads
            ∙ ap done (
                append_assoc written (b ∷ rest)
                  (take (end - (i + length (b ∷ rest))) (drop (i + length (b ∷ rest)) file))
                ∙ ap (λ t. written ++ t)
                    (next_part i end (b ∷ rest) (omega arith) (v.faithful c i (b ∷ rest) r)))
      ]

  -- For offsets with start ≤ end < 2^63, on a file read by a `pread` that behaves as documented and
  -- never fails, however short its reads are: `out` ends, never asks for more than its buffer holds,
  -- and hands to `write` exactly the bytes of the file from start up to end.
  pub out_lem :
      (start end : ℕ)
      → start ≤ end
      → end < 2 ^ 63
      → ((count offset : ℕ) → (bytes : List ℕ) × (pread count offset ≡ some bytes))
      → out pread start end ≡ done (take (end - start) (drop start file))
  unfolding out
  out_lem start end h small reads =
      out_loop_lem (suc (end - start)) start end chunk [] h small (inl refl) (omega arith) reads
