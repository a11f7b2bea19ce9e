-- ===== src/Files/Zerorun/Runs.antt =====
-- What the scan has printed: the maximal runs that a block with data has ended.
use xtest.Base.{
  ℕ, ◌+◌, ◌-◌, ◌≤◌, ◌<◌, ◌≡◌, ◌⊎◌, inl, inr, ◌==◌, ◌&&◌, ◌||◌, Bool, true, false, List, [], ◌∷◌,
  ◌++◌, arith, refl, ap, ◌∙◌, sym, dec_lt, ℕ_discrete, Bool-cases, subst,
}
use xtest.Files.Zerorun.{unset, Scan, note_block}

abbrev pub member : ℕ → ℕ → List (ℕ × ℕ) → Bool
member a b [] = false
member a b ((x, y) ∷ rest) = ((x == a) && (y == b)) || member a b rest

member-snoc :
    (a b x y : ℕ) (xs : List (ℕ × ℕ))
    → member a b (xs ++ (x, y) ∷ []) ≡ (member a b xs || ((x == a) && (y == b)))
member-snoc a b x y [] = ground arith
member-snoc a b x y ((c, d) ∷ xs) = ground (arith, member-snoc a b x y xs)

or_true : (p q : Bool) → (p ≡ true) ⊎ (q ≡ true) → (p || q) ≡ true
or_true true q e = refl
or_true false q (inl e) = absurd (ground arith)
or_true false q (inr e) = e

or_cases : (p q : Bool) → (p || q) ≡ true → (p ≡ true) ⊎ (q ≡ true)
or_cases true q e = inl refl
or_cases false q e = inr e

module _ (zeroed : ℕ → Bool) where
  -- Blocks a to b are zeroed, and the block before them, if any, is not.
  pub record Opened (a b : ℕ) : Type 0 where
    pub ordered : a ≤ b
    pub zeros : (j : ℕ) → a ≤ j → j ≤ b → zeroed j ≡ true
    pub left : (a ≡ 0) ⊎ (zeroed (a - 1) ≡ false)

  -- A maximal run among the first `n` blocks that does not reach the last of them.
  pub record IsRun (n a b : ℕ) : Type 0 where
    pub opened : Opened a b
    pub inside : b + 1 < n
    pub right : zeroed (b + 1) ≡ false

  pub record Noted (n : ℕ) (s : Scan) : Type 0 where
    pub state :
        ((s.start ≡ unset) × ((n ≡ 0) ⊎ (zeroed (n - 1) ≡ false)))
        ⊎ ((s.end + 1 ≡ n) × Opened s.start s.end)
    pub complete : (a b : ℕ) → IsRun n a b → member a b s.printed ≡ true
    pub sound : (a b : ℕ) → member a b s.printed ≡ true → IsRun n a b

  IsRun-suc : (n a b : ℕ) → IsRun n a b → IsRun (n + 1) a b
  IsRun-suc n a b r = record {
    opened = r.opened;
    inside = omega (arith, r.inside);
    right = r.right;
  }

  -- Block `n` is zeroed, so that no run ends before it.
  zeroed-IsRun : (n a b : ℕ) → zeroed n ≡ true → IsRun (n + 1) a b → IsRun n a b
  zeroed-IsRun n a b z r = elim (ℕ_discrete (b + 1) n) [
    | yes same ↦ absurd (ground (arith, r.right, ap zeroed same))
    | no other ↦ record { opened = r.opened; inside = omega (arith, r.inside); right = r.right }
  ]

  -- No run is open before block `n`.
  closed-IsRun : (n a b : ℕ) → (n ≡ 0) ⊎ (zeroed (n - 1) ≡ false) → IsRun (n + 1) a b → IsRun n a b
  closed-IsRun n a b c r = elim (ℕ_discrete (b + 1) n) [
    | yes same ↦
        let e : n - 1 ≡ b = omega arith in
        absurd (ground (arith, c, r.opened.zeros b (r.opened.ordered) (omega arith), ap zeroed e))
    | no other ↦ record { opened = r.opened; inside = omega (arith, r.inside); right = r.right }
  ]

  -- Two runs that end at one block are one run.
  Opened-unique : (a c b : ℕ) → Opened a b → Opened c b → a ≡ c
  Opened-unique a c b p q = elim (dec_lt a c) [
    | yes lt ↦
        absurd (ground (arith, q.left, p.zeros (c - 1) (omega arith) (omega (arith, q.ordered))))
    | no ge ↦ elim (dec_lt c a) [
      | yes lt ↦
          absurd (ground (arith, p.left, q.zeros (a - 1) (omega arith) (omega (arith, p.ordered))))
      | no le ↦ omega arith
    ]
  ]

  extend : (a b : ℕ) → Opened a b → zeroed (b + 1) ≡ true → Opened a (b + 1)
  extend a b o z = record {
    ordered = omega (arith, o.ordered);
    zeros = λ j lo hi. elim (ℕ_discrete j (b + 1)) [
      | yes same ↦ ap zeroed same ∙ z
      | no other ↦ o.zeros j lo (omega arith)
    ];
    left = o.left;
  }

  begin : (n : ℕ) → (n ≡ 0) ⊎ (zeroed (n - 1) ≡ false) → zeroed n ≡ true → Opened n n
  begin n c z = record {
    ordered = omega arith;
    zeros = λ j lo hi. let e : j ≡ n = omega arith in ap zeroed e ∙ z;
    left = c;
  }

  -- The open run is put on record when block `n` ends it.
  ended-IsRun :
      (n a b x y : ℕ)
      → y + 1 ≡ n
      → Opened x y
      → zeroed n ≡ false
      → (x == a) && (y == b) ≡ true
      → IsRun (n + 1) a b
  ended-IsRun n a b x y e o z same =
      let ea : x ≡ a = ground arith in
      let eb : y ≡ b = ground arith in
      record {
        opened = subst (λ t. Opened t b) ea (subst (Opened x) eb o);
        inside = omega arith;
        right = let at : b + 1 ≡ n = omega arith in ap zeroed at ∙ z;
      }

  ended-member :
      (n a b x y : ℕ)
      → y + 1 ≡ n
      → Opened x y
      → IsRun (n + 1) a b
      → IsRun n a b ⊎ ((x == a) && (y == b) ≡ true)
  ended-member n a b x y e o r = elim (ℕ_discrete (b + 1) n) [
    | yes same ↦
        let eb : y ≡ b = omega arith in
        let ea : x ≡ a = Opened-unique x a b (subst (Opened x) eb o) r.opened in inr (ground arith)
    | no other ↦
        inl (record { opened = r.opened; inside = omega (arith, r.inside); right = r.right })
  ]

  widen :
      (n a b : ℕ) (s : Scan)
      → Noted n s
      → IsRun n a b ⊎ ((s.start == a) && (s.end == b) ≡ true)
      → (member a b s.printed ≡ true) ⊎ ((s.start == a) && (s.end == b) ≡ true)
  widen n a b s v (inl r) = inl (v.complete a b r)
  widen n a b s v (inr e) = inr e

  Noted-zeroed :
      (n : ℕ) (s : Scan)
      → n < unset
      → zeroed n ≡ true
      → Noted n s
      → Noted (n + 1) (note_block n true s)
  unfolding note_block
  Noted-zeroed n s small z v = elim v.state [
    | inl (unopened, c) ↦
        let e : (s.start == unset) ≡ true = ground (arith, unopened) in
        rw e (record {
          state = inr (refl, begin n c z);
          complete = λ a b r. v.complete a b (zeroed-IsRun n a b z r);
          sound = λ a b m. IsRun-suc n a b (v.sound a b m);
        })
    | inr (at, o) ↦
        let e : (s.start == unset) ≡ false = ground (arith, o.ordered) in
        rw e (record {
          state = inr (refl, subst (Opened s.start) at (extend s.start s.end o (ap zeroed at ∙ z)));
          complete = λ a b r. v.complete a b (zeroed-IsRun n a b z r);
          sound = λ a b m. IsRun-suc n a b (v.sound a b m);
        })
  ]

  before : (n : ℕ) → zeroed n ≡ false → zeroed (n + 1 - 1) ≡ false
  before n z = let e : n + 1 - 1 ≡ n = omega arith in ap zeroed e ∙ z

  Noted-data :
      (n : ℕ) (s : Scan)
      → n < unset
      → zeroed n ≡ false
      → Noted n s
      → Noted (n + 1) (note_block n false s)
  unfolding note_block
  Noted-data n s small z v = elim v.state [
    | inl (unopened, c) ↦
        let e : (s.start == unset) ≡ true = ground (arith, unopened) in
        rw e (record {
          state = inl (unopened, inr (before n z));
          complete = λ a b r. v.complete a b (closed-IsRun n a b c r);
          sound = λ a b m. IsRun-suc n a b (v.sound a b m);
        })
    | inr (at, o) ↦
        let e : (s.start == unset) ≡ false = ground (arith, o.ordered) in
        rw e (record {
          state = inl (refl, inr (before n z));
          complete = λ a b r.
              member-snoc a b s.start s.end s.printed
              ∙ or_true _ _ (widen n a b s v (ended-member n a b s.start s.end at o r));
          sound = λ a b m. elim (or_cases _ _ (sym (member-snoc a b s.start s.end s.printed) ∙ m)) [
            | inl old ↦ IsRun-suc n a b (v.sound a b old)
            | inr new ↦ ended-IsRun n a b s.start s.end at o z new
          ];
        })
  ]

  pub Noted-note_block :
      (n : ℕ) (s : Scan) → n < unset → Noted n s → Noted (n + 1) (note_block n (zeroed n) s)
  Noted-note_block n s small v = elim (Bool-cases (zeroed n)) [
    | inl z ↦ subst (λ t. Noted (n + 1) (note_block n t s)) (sym z) (Noted-zeroed n s small z v)
    | inr z ↦ subst (λ t. Noted (n + 1) (note_block n t s)) (sym z) (Noted-data n s small z v)
  ]
