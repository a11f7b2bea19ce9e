-- ===== src/Prime/Wheel/Correct.antt =====
-- `sieve2` leaves a table of the primes.
use xtest.Base.{
  ℕ, zero, suc, ◌+◌, ◌-◌, ◌*◌, ◌%◌, ◌^◌, ◌≤◌, ◌<◌, ◌≡◌, inl, inr, refl, ap, ◌∙◌, List, ◌++◌, drop,
  replicate, length, arith, Outcome, done, Bool-cases, dec_lt,
}
use xtest.Prime.Bitmap.{bit, bits}
use xtest.Prime.Bitmap.Laws.{flag, bit-flag}
use xtest.Prime.Sieve.Mark.{mark-IsMarked}
use xtest.Prime.Sieve.Spec.{Struck, Struck-mul}
use xtest.Prime.Sieve.Correct.{
  IsSieved, IsSieved-skip, lt_of_square, memset_lem, IsSieved-memset, IsPrimeTable, IsPrimeTable-of,
}
use xtest.Prime.Wheel.{wheel_loop, sieve2}
use xtest.Prime.Wheel.Stages.{IsSieved-wheel, IsSieved-even, IsSieved-run, Stage, strike-Stage}
use xtest.Prime.Wheel.Spokes.{spoke, Spoke, spoke_lem, spoke_odd}

module _ (limit : ℕ) (small : limit ≤ 2 ^ 62) where
  record Round (fuel i g : ℕ) (p : List ℕ) : Type 0 where
    out : List ℕ
    gap : ℕ
    steps : wheel_loop (suc fuel) p i g limit ≡ wheel_loop fuel out (i + gap) ((g + 1) % 8) limit
    same_length : length out ≡ length p
    low : 1 < gap
    high : gap < 7
    next : (i + gap) % 30 ≡ spoke ((g + 1) % 8)
    sieved : IsSieved limit small (i + gap) out

  to_next :
      (i g : ℕ) (p : List ℕ)
      → 6 < i
      → (w : Spoke g i) → IsSieved limit small (i + 1) p
      → IsSieved limit small (i + w.gap) p
  to_next i g p above w s =
      IsSieved-run limit small (w.gap - 1) (i + 1) (i + w.gap) p (omega (arith, w.low))
        (omega arith) (λ j lt. w.outs j (omega (arith, lt, w.low))) s

  near_root : (i : ℕ) → i * i < 2 ^ 62 → i < 2 ^ 31
  near_root i h = elim (dec_lt i (2 ^ 31)) [
    | yes lt ↦ lt
    | no ge ↦ absurd (let q : 2 ^ 31 * 2 ^ 31 ≤ i * i = grind arith in omega arith)
  ]

  round :
      (fuel i g : ℕ) (p : List ℕ)
      → 6 < i
      → i * i < limit
      → g < 8
      → i % 30 ≡ spoke g
      → i % 2 ≡ 1
      → IsSieved limit small i p
      → Round fuel i g p
  round fuel i g p above go lt e odd s =
      let w = spoke_lem g i lt e in
      let root = near_root i (omega arith) in
      let in_range : i < limit = lt_of_square limit small i (omega arith) go in
      let read : bit p i ≡ done (flag p i) = bit-flag p i (omega (arith, s.room)) odd in
      elim (Bool-cases (flag p i)) [
        | inl left ↦
            let r =
              mark-IsMarked (2 * i) limit (omega arith) small (omega (arith, root)) limit p (i * i)
                (omega arith) s.room s.bytes in
            record {
              out = r.out;
              gap = w.gap;
              steps = unfold wheel_loop in ground (arith, r.returns, w.reads, left, read, root);
              same_length = r.same_length;
              low = w.low;
              high = w.high;
              next = w.next;
              sieved =
                  to_next i g r.out above w (IsSieved-wheel limit small i p (omega arith) odd s r);
            }
        | inr gone ↦ record {
          out = p;
          gap = w.gap;
          steps = unfold wheel_loop in ground (arith, w.reads, gone, read);
          same_length = refl;
          low = w.low;
          high = w.high;
          next = w.next;
          sieved = to_next i g p above w (
              IsSieved-skip limit small i p s
                (λ n k o far q. rw q (Struck-mul i k (s.sound i odd in_range gone) far)));
        }
      ]

  pub record Finished (p : List ℕ) (run : Outcome (List ℕ)) : Type 0 where
    pub out : List ℕ
    pub last : ℕ
    pub returns : run ≡ done out
    pub same_length : length out ≡ length p
    pub covers : limit ≤ last * last
    pub sieved : IsSieved limit small last out

  square_fits : (i : ℕ) → i ≤ 2 ^ 31 + 6 → i * i < 2 ^ 63
  square_fits i h = let q : i * i ≤ (2 ^ 31 + 6) * (2 ^ 31 + 6) = grind arith in omega arith

  finish :
      (fuel i g : ℕ) (p : List ℕ)
      → limit ≤ i * i
      → i ≤ 2 ^ 31 + 6
      → IsSieved limit small i p
      → Finished p (wheel_loop (suc fuel) p i g limit)
  finish fuel i g p over near s = record {
    out = p;
    last = i;
    returns = unfold wheel_loop in ground (arith, square_fits i near);
    same_length = refl;
    covers = over;
    sieved = s;
  }

  wheel_loop-Finished :
      (fuel i g : ℕ) (p : List ℕ)
      → 6 < i
      → limit ≤ i + fuel
      → i ≤ 2 ^ 31 + 6
      → g < 8
      → i % 30 ≡ spoke g
      → IsSieved limit small i p
      → Finished p (wheel_loop (suc fuel) p i g limit)
  wheel_loop-Finished zero i g p above enough near lt e s = finish zero i g p (grind arith) near s
  wheel_loop-Finished (suc fuel) i g p above enough near lt e s = elim (dec_lt (i * i) limit) [
    | no stop ↦ finish (suc fuel) i g p (omega arith) near s
    | yes go ↦
        let r = round (suc fuel) i g p above go lt e (spoke_odd g i lt e) s in
        let root = near_root i (omega arith) in
        let rest =
          wheel_loop-Finished fuel (i + r.gap) ((g + 1) % 8) r.out (omega arith)
            (omega (arith, r.low)) (omega (arith, r.high, root)) (omega arith) r.next r.sieved in
        record {
          out = rest.out;
          last = rest.last;
          returns = r.steps ∙ rest.returns;
          same_length = rest.same_length ∙ r.same_length;
          covers = rest.covers;
          sieved = rest.sieved;
        }
  ]

  three_prime : ¬ (Struck 4 3)
  three_prime (d, k, p, lt, le, e) = let q : 2 * 2 ≤ d * k = grind arith in omega (arith, q, e)

  five_prime : ¬ (Struck 6 5)
  five_prime (d, k, p, lt, le, e) = elim (dec_lt d 3) [
    | yes two ↦ let s : d ≡ 2 = omega arith in omega (arith, e, ap (λ (t : ℕ). t * k) s)
    | no more ↦ let q : 3 * 3 ≤ d * k = grind arith in omega (arith, q, e)
  ]

  three_Stage : (p : List ℕ) → 3 < limit → IsSieved limit small 3 p → Stage limit small 3 p
  three_Stage p lt s =
      strike-Stage limit small 3 (omega arith) (omega arith) (omega arith) three_prime
        (λ k a b o. absurd (omega arith)) p lt s

  five_Stage : (p : List ℕ) → 5 < limit → IsSieved limit small 5 p → Stage limit small 5 p
  five_Stage p lt s =
      strike-Stage limit small 5 (omega arith) (omega arith) (omega arith) five_prime
        (λ k a b o. (3, 5, omega arith, omega arith, omega arith, omega arith)) p lt s

-- For a limit from 16 to 2 ^ 62 that is a multiple of 16, and an array of the size that `main`
-- allocates, `sieve2` stays in bounds, ends, and leaves a table of the primes.
pub sieve2_lem :
    (p : List ℕ) (limit : ℕ)
    → limit ≤ 2 ^ 62
    → 16 ≤ limit
    → limit % 16 ≡ 0
    → length p ≡ bits limit
    → (q : List ℕ) × (sieve2 p limit ≡ done q) × IsPrimeTable limit q
unfolding sieve2
sieve2_lem p limit small large whole room =
    let start = replicate (bits limit) 255 ++ drop (bits limit) p in
    let cleared = memset_lem p (bits limit) (omega arith) in
    let three = three_Stage limit small start (omega arith) (
      IsSieved-even limit small 2 start (omega arith) (IsSieved-memset limit small p whole room)) in
    let five =
      five_Stage limit small three.out (omega arith)
        (IsSieved-even limit small 4 three.out (omega arith) three.sieved) in
    let f =
      wheel_loop-Finished limit small limit 7 0 five.out (omega arith) (omega arith) (omega arith)
        (omega arith) (omega arith)
        (IsSieved-even limit small 6 five.out (omega arith) five.sieved) in
    (
      f.out,
      rw (cleared.0, three.returns, five.returns) f.returns,
      IsPrimeTable-of limit small f.last f.out whole
          (f.same_length ∙ (five.same_length ∙ (three.same_length ∙ (cleared.1 ∙ room)))) f.covers
          f.sieved,
    )
