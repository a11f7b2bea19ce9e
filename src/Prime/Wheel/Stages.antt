-- ===== src/Prime/Wheel/Stages.antt =====
-- What the two stages for 3 and 5 and a round of the wheel strike.
use xtest.Base.{
  ℕ, zero, suc, ◌+◌, ◌-◌, ◌*◌, ◌/◌, ◌%◌, ◌^◌, ◌≤◌, ◌<◌, ◌≡◌, ◌≢◌, ◌⊎◌, inl, inr, ap, ◌∙◌, subst,
  ==_iff, true, false, List, length, arith, Outcome, done, Bool-cases, dec_lt, ◌==◌, if◌then◌else◌,
}
use xtest.Prime.Bitmap.Laws.{flag, put, setbit-put, length-put, put-IsBytes, flag-put}
use xtest.Prime.Sieve.Mark.{IsMarked, mark-IsMarked}
use xtest.Prime.Sieve.Spec.{Struck, even-mul, Struck-suc, Struck-cases, Struck-mul}
use xtest.Prime.Sieve.Correct.{IsSieved, IsSieved-skip}
use xtest.Prime.Wheel.{strike}

-- 2, 3 or 5 divides it.
abbrev pub Out : ℕ → Type 0
Out c = (c % 2 ≡ 0) ⊎ ((c % 3 ≡ 0) ⊎ (c % 5 ≡ 0))

-- An odd multiple has an odd cofactor.
odd-cofactor : (i k n : ℕ) → n % 2 ≡ 1 → n ≡ i * k → k % 2 ≡ 1
odd-cofactor i k n odd e = elim (Bool-cases (k % 2 == 0)) [
  | inl even ↦ absurd (omega (arith, even-mul k i (ground arith), e))
  | inr other ↦ ground arith
]

module _ (limit : ℕ) (small : limit ≤ 2 ^ 62) where
  -- A round for an odd `i`, which strikes `i * i` and then every other multiple.
  pub IsSieved-wheel :
      (i : ℕ) (p : List ℕ) {run : Outcome (List ℕ)}
      → 1 < i
      → i % 2 ≡ 1
      → IsSieved limit small i p
      → (r : IsMarked p (i * i) (2 * i) limit run) → IsSieved limit small (i + 1) r.out
  IsSieved-wheel i p big odd_i s r = record {
    room = omega (arith, s.room, r.same_length);
    bytes = r.bytes;
    sound = λ n odd lt h. elim (r.only n odd h) [
      | inl before ↦ Struck-suc i n (s.sound n odd lt before)
      | inr (m, e) ↦ (i, i + 2 * m, big, omega arith, omega arith, omega arith)
    ];
    complete = λ n odd lt h. elim (Struck-cases i n h) [
      | inl before ↦ r.keeps n odd (s.complete n odd lt before)
      | inr (k, far, e) ↦
          let o = odd-cofactor i k n odd e in
          let f : k ≡ i + 2 * ((k - i) / 2) = omega arith in
          r.hits n ((k - i) / 2) odd lt (omega (arith, e, ap (λ (t : ℕ). i * t) f))
    ];
  }

  -- What a stage leaves.
  pub record Stage (i : ℕ) (p : List ℕ) : Type 0 where
    pub out : List ℕ
    pub returns : strike p i limit ≡ done out
    pub same_length : length out ≡ length p
    pub sieved : IsSieved limit small (i + 1) out

  -- A stage for an odd `i` that nothing strikes, where its smaller multiples are struck already.
  module _ (i : ℕ) (big : 1 < i) (tiny : i ≤ 2 ^ 60) (odd_i : i % 2 ≡ 1)
      (prime : ¬ (Struck (i + 1) i))
      (old : (k : ℕ) → 1 < k → k < i → k % 2 ≡ 1 → Struck i (i * k)) where
    stage-only : (n m : ℕ) → n ≢ i → n ≡ i + m * (2 * i) → Struck (i + 1) n
    stage-only n zero off e = absurd (off (omega arith))
    stage-only n (suc m) off e = elim (dec_lt (1 + 2 * suc m) i) [
      | yes less ↦ Struck-suc i n (
          subst (Struck i) (omega (arith, e))
            (old (1 + 2 * suc m) (omega arith) less (omega arith)))
      | no more ↦ (i, 1 + 2 * suc m, big, omega arith, omega arith, omega arith)
    ]

    stage-IsSieved :
        (p : List ℕ) {run : Outcome (List ℕ)}
        → IsSieved limit small i p
        → (r : IsMarked p i (2 * i) limit run) → i / 2 / 8 < length r.out
        → IsSieved limit small (i + 1) (put r.out i true)
    stage-IsSieved p s r fits = record {
      room = omega (arith, s.room, r.same_length, length-put r.out i fits true);
      bytes = put-IsBytes r.out i fits r.bytes true;
      sound = λ n odd lt h. sound n odd lt h;
      complete = λ n odd lt h. complete n odd lt h;
    }
      where
        put_flag :
            (n : ℕ)
            → n % 2 ≡ 1
            → flag (put r.out i true) n ≡ (if n == i then true else flag r.out n)
        put_flag n odd = flag-put r.out i fits r.bytes true n odd

        sound :
            (n : ℕ) → n % 2 ≡ 1 → n < limit → flag (put r.out i true) n ≡ false → Struck (i + 1) n
        sound n odd lt h = elim (Bool-cases (n == i)) [
          | inl same ↦ cc (put_flag n odd, same, h)
          | inr off ↦ elim (r.only n odd (ground (arith, put_flag n odd, off, h))) [
            | inl before ↦ Struck-suc i n (s.sound n odd lt before)
            | inr (m, e) ↦ stage-only n m (ground (arith, off)) e
          ]
        ]

        cleared : (n : ℕ) → n % 2 ≡ 1 → n < limit → Struck (i + 1) n → flag r.out n ≡ false
        cleared n odd lt h = elim (Struck-cases i n h) [
          | inl before ↦ r.keeps n odd (s.complete n odd lt before)
          | inr (k, far, e) ↦
              let o = odd-cofactor i k n odd e in
              let f : k ≡ 1 + 2 * ((k - 1) / 2) = omega arith in
              r.hits n ((k - 1) / 2) odd lt (omega (arith, e, ap (λ (t : ℕ). i * t) f))
        ]

        complete :
            (n : ℕ) → n % 2 ≡ 1 → n < limit → Struck (i + 1) n → flag (put r.out i true) n ≡ false
        complete n odd lt h = elim (Bool-cases (n == i)) [
          | inl same ↦ absurd (prime (subst (Struck (i + 1)) ((==_iff n i).0 same) h))
          | inr off ↦ ground (arith, put_flag n odd, off, cleared n odd lt h)
        ]

    pub strike-Stage : (p : List ℕ) → i < limit → IsSieved limit small i p → Stage i p
    unfolding strike
    strike-Stage p in_range s =
        let r =
          mark-IsMarked (2 * i) limit (omega arith) small (omega arith) limit p i (omega arith)
            s.room s.bytes in
        let fits : i / 2 / 8 < length r.out = omega (arith, r.same_length, s.room) in
        record {
          out = put r.out i true;
          returns = rw (r.returns) (setbit-put r.out i fits true);
          same_length = length-put r.out i fits true ∙ r.same_length;
          sieved = stage-IsSieved p s r fits;
        }

  -- A number that 2, 3 or 5 divides strikes nothing new.
  IsSieved-Struck :
      (c : ℕ) (p : List ℕ) → Struck c c → IsSieved limit small c p → IsSieved limit small (c + 1) p
  IsSieved-Struck c p d s =
      IsSieved-skip limit small c p s
        (λ n k odd far e. subst (Struck c) (omega (arith, e)) (Struck-mul c k d far))

  pub IsSieved-even :
      (c : ℕ) (p : List ℕ) → c % 2 ≡ 0 → IsSieved limit small c p → IsSieved limit small (c + 1) p
  IsSieved-even c p even s =
      IsSieved-skip limit small c p s
        (λ n k odd far e. absurd (omega (arith, even-mul c k even, e)))

  IsSieved-five :
      (c : ℕ) (p : List ℕ)
      → 7 < c
      → c % 5 ≡ 0
      → IsSieved limit small c p
      → IsSieved limit small (c + 1) p
  IsSieved-five c p above five s = elim (dec_lt c 25) [
    | no more ↦ IsSieved-Struck c p (5, c / 5, omega arith, omega arith, omega arith, omega arith) s
    | yes less ↦ elim (Bool-cases (c % 2 == 0)) [
      | inl even ↦ IsSieved-even c p (ground (arith, even)) s
      | inr odd ↦
          IsSieved-Struck c p
            (3, c / 3, omega arith, omega arith, ground (arith, odd), ground (arith, odd)) s
    ]
  ]

  pub IsSieved-Out :
      (c : ℕ) (p : List ℕ)
      → 7 < c
      → Out c
      → IsSieved limit small c p
      → IsSieved limit small (c + 1) p
  IsSieved-Out c p above (inl even) s = IsSieved-even c p even s
  IsSieved-Out c p above (inr (inl three)) s =
      IsSieved-Struck c p (3, c / 3, omega arith, omega arith, omega arith, omega arith) s
  IsSieved-Out c p above (inr (inr five)) s = IsSieved-five c p above five s

  pub IsSieved-run :
      (count c d : ℕ) (p : List ℕ)
      → c + count ≡ d
      → 7 < c
      → ((j : ℕ) → j < count → Out (c + j))
      → IsSieved limit small c p
      → IsSieved limit small d p
  IsSieved-run zero c d p e above outs s =
      subst (λ x. IsSieved limit small x p) (omega (arith, e)) s
  IsSieved-run (suc count) c d p e above outs s =
      let first = outs 0 (omega arith) in
      IsSieved-run count (c + 1) d p (omega arith) (omega arith)
        (λ j lt. subst Out (omega arith) (outs (suc j) (omega arith)))
        (IsSieved-Out c p above (subst Out (omega arith) first) s)
