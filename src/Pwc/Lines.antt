-- ===== src/Pwc/Lines.antt =====
-- `struct file` and `lines`.
use xtest.Base.{
  ℕ, zero, suc, ◌+◌, ◌<◌, ◌≡◌, refl, List, [], ◌∷◌, Option, none, some, length, arith, ◌==◌,
  if◌then◌else◌, Bool-cases, Option-cases, inl, inr, Outcome, done, timeout, ap, ◌∙◌,
}

pub record File : Type 0 where
  pub path : List ℕ
  pub fd : ℕ
  pub mapping : List ℕ  -- the `size` bytes that are mapped
  pub lines : ℕ

-- A slot of the static arrays before anything is stored in it.
abbrev pub blank : File
blank = record { path = []; fd = 0; mapping = []; lines = 0 }

abbrev pub newline : ℕ
newline = 10

-- `memchr(base, '\n', ...)` and `base + 1`: what follows the first newline.
unfoldable pub after_newline : List ℕ → Option (List ℕ)
after_newline [] = none
after_newline (c ∷ rest) = if c == newline then some rest else after_newline rest

unfoldable pub lines_loop : ℕ → List ℕ → ℕ → Outcome ℕ
lines_loop zero base ctr = timeout
lines_loop (suc fuel) base ctr = elim (after_newline base) [
  | none ↦ done ctr
  | some rest ↦ lines_loop fuel rest (ctr + 1)
]

unfoldable pub lines : File → Outcome ℕ
lines f = lines_loop (suc (length f.mapping)) f.mapping 0

abbrev pub newlines : List ℕ → ℕ
newlines [] = 0
newlines (c ∷ rest) = if c == newline then suc (newlines rest) else newlines rest

found_nothing : (base : List ℕ) → after_newline base ≡ none → newlines base ≡ 0
unfolding after_newline
found_nothing [] h = refl
found_nothing (c ∷ rest) h = ground (arith, found_nothing rest)

found_rest :
    (base rest : List ℕ)
    → after_newline base ≡ some rest
    → (newlines base ≡ suc (newlines rest)) × (length rest < length base)
unfolding after_newline
found_rest [] rest h = absurd (ground arith)
found_rest (c ∷ more) rest h = elim (Bool-cases (c == newline)) [
  | inl hit ↦ let e : more ≡ rest = ground arith in rw hit (rw e (refl, omega arith))
  | inr miss ↦ let ih = found_rest more rest (ground arith) in rw miss (ih.0, omega (arith, ih.1))
]

lines_loop_lem :
    (fuel : ℕ) (base : List ℕ) (ctr : ℕ)
    → length base < fuel
    → lines_loop fuel base ctr ≡ done (ctr + newlines base)
unfolding lines_loop
lines_loop_lem zero base ctr h = elim h [ ]
lines_loop_lem (suc fuel) base ctr h = elim (Option-cases (after_newline base)) [
  | inl end ↦ rw (end, lines_loop) (ap done (omega (arith, found_nothing base end)))
  | inr (rest, e) ↦
      let step = found_rest base rest e in
      rw (e, lines_loop)
        (lines_loop_lem fuel rest (ctr + 1) (omega (arith, step.1))
          ∙ ap done (omega (arith, step.0)))
]

-- `lines` ends on every mapped file and counts its newline bytes.
pub lines_lem : (f : File) → lines f ≡ done (newlines f.mapping)
unfolding lines
lines_lem f =
    lines_loop_lem (suc (length f.mapping)) f.mapping 0 (omega arith) ∙ ap done (omega arith)
