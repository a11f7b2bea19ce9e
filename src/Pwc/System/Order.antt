-- ===== src/Pwc/System/Order.antt =====
-- What is printed, whatever the interleaving.
use xtest.Base.{
  ℕ, zero, suc, ◌≤◌, ◌≡◌, refl, sym, ap, ◌∙◌, List, [], ◌∷◌, map, arith, length, take,
  length-append, take-append_le, length-take, length-map, take-take_le, map-take,
}
use xtest.Pwc.Lines.{File, after_newline, lines_loop, lines, blank}
use xtest.Pwc.System.{System, count, keep, Reach}
use xtest.Pwc.System.Ready.{in_hand, Inv}
use xtest.Pwc.System.Invariant.{Reach-Inv}

take-cons-take :
    (n m : ℕ) (x : File) (xs : List File) → n ≤ m → take n (x ∷ take m xs) ≡ take n (x ∷ xs)
take-cons-take zero m x xs h = refl
take-cons-take (suc n) m x xs h = ap (λ t. x ∷ t) (take-take_le n m xs (omega arith))

map-keep : (xs : List File) → map keep xs ≡ xs
map-keep [] = refl
map-keep (x ∷ xs) = ap (λ t. x ∷ t) (map-keep xs)

count-blank : count blank ≡ blank
unfolding lines lines_loop after_newline
count-blank = refl

printed_start :
    (s : System)
    → Inv s
    → (s.finished.tail ≤ s.work.tail)
      × (s.finished.taken ≡ take s.finished.tail (blank ∷ s.work.taken))
printed_start s v =
    let n = s.finished.tail in
    let handed = ap length v.handed in
    let some_taken : length s.work.taken ≤ s.work.tail = omega (
      arith,
      ap length v.first.history,
      length-map (take s.work.tail (blank ∷ s.work.published)) count,
      length-take s.work.tail (blank ∷ s.work.published),
    ) in
    (
      omega (
        arith,
        v.second.ahead,
        v.second.counted,
        length-append s.finished.published (in_hand s.io),
      ),
      v.second.history
          ∙ map-keep (take n (blank ∷ s.finished.published))
          ∙ sym (
              take-append_le n (blank ∷ s.finished.published) (in_hand s.io)
                (omega (arith, v.second.ahead, v.second.counted)))
          ∙ ap (λ t. take n (blank ∷ t)) (sym v.handed),
    )

-- In every reachable state what was printed is the start of a list that begins with two blank
-- entries and goes on with the counted files in the order of the walk, and no more was printed than
-- files were pushed: the two files that were pushed last are missing.
pub printed_lem :
    {s : System}
    → Reach s
    → (n : ℕ) × (n ≤ length s.work.published)
      × (s.finished.taken ≡ take n (blank ∷ blank ∷ map count s.work.published))
printed_lem {s} r =
    let v = Reach-Inv r in
    let n = s.finished.tail in
    let (early, printed) = printed_start s v in
    (
      n,
      omega (arith, v.first.ahead, v.first.counted),
      printed
          ∙ ap (λ t. take n (blank ∷ t))
              (v.first.history ∙ map-take count s.work.tail (blank ∷ s.work.published))
          ∙ take-cons-take n s.work.tail blank (count blank ∷ map count s.work.published) early
          ∙ ap (λ t. take n (blank ∷ t ∷ map count s.work.published)) count-blank,
    )
