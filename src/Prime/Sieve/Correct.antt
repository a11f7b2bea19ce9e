-- ===== src/Prime/Sieve/Correct.antt =====
-- After the round for `i` exactly the odd multiples of what was below `i` are cleared.
use xtest.Base.Check.{passes_under, passes_under-lt}
use xtest.Base.{
  get_or-ge, get_or-replicate-append, if◌then◌else◌, ℕ, zero, suc, ◌+◌, ◌-◌, ◌*◌, ◌/◌, ◌%◌, ◌^◌,
  ◌≤◌, ◌<◌, ◌≡◌, inl, inr, refl, ◌∙◌, true, false, List, length, arith, Outcome, done, ltb,
  Bool-cases, dec_lt, ◌==◌, replicate, drop, ◌++◌, get_or, ap, length-append, length-replicate,
  length-drop,
}
use xtest.Prime.Bitmap.{bit, bits, test_bit}
use xtest.Prime.Bitmap.Laws.{flag, IsBytes, bit_even, bit-flag}
use xtest.Prime.Sieve.{sieve_loop, sieve, memset}
use xtest.Prime.Sieve.Mark.{IsMarked, mark-IsMarked}
use xtest.Prime.Sieve.Spec.{
  Composite, IsPrime, Struck, even-mul, Struck-suc, Struck-cases, Struck-mul, Struck-of_Composite,
  Composite-of_Struck,
}

module _ (limit : ℕ) (small : limit ≤ 2 ^ 62) where
  pub record IsSieved (i : ℕ) (p : List ℕ) : Type 0 where
    pub room : limit ≤ 16 * length p
    pub bytes : IsBytes p
    pub sound : (n : ℕ) → n % 2 ≡ 1 → n < limit → flag p n ≡ false → Struck i n
    pub complete : (n : ℕ) → n % 2 ≡ 1 → n < limit → Struck i n → flag p n ≡ false

  -- `i` itself strikes nothing new.
  pub IsSieved-skip :
      (i : ℕ) (p : List ℕ)
      → IsSieved i p
      → ((n k : ℕ) → n % 2 ≡ 1 → i ≤ k → n ≡ i * k → Struck i n)
      → IsSieved (i + 1) p
  IsSieved-skip i p s old = record {
    room = s.room;
    bytes = s.bytes;
    sound = λ n odd lt h. Struck-suc i n (s.sound n odd lt h);
    complete = λ n odd lt h.
        s.complete n odd lt
          (elim (Struck-cases i n h) [ inl before ↦ before | inr (k, far, e) ↦ old n k odd far e ]);
  }

  IsSieved-mark :
      (i : ℕ) (p : List ℕ) {run : Outcome (List ℕ)}
      → 1 < i
      → IsSieved i p
      → (r : IsMarked p (i * i) i limit run) → IsSieved (i + 1) r.out
  IsSieved-mark i p big s r = record {
    room = omega (arith, s.room, r.same_length);
    bytes = r.bytes;
    sound = λ n odd lt h. elim (r.only n odd h) [
      | inl before ↦ Struck-suc i n (s.sound n odd lt before)
      | inr (m, e) ↦ (i, i + m, big, omega arith, omega arith, omega arith)
    ];
    complete = λ n odd lt h. elim (Struck-cases i n h) [
      | inl before ↦ r.keeps n odd (s.complete n odd lt before)
      | inr (k, far, e) ↦
          r.hits n (k - i) odd lt
            (let f : k ≡ i + (k - i) = omega arith in omega (arith, ap (λ (t : ℕ). i * t) f))
    ];
  }

  record Round (fuel i : ℕ) (p : List ℕ) : Type 0 where
    out : List ℕ
    steps : sieve_loop (suc fuel) p i limit ≡ sieve_loop fuel out (i + 1) limit
    same_length : length out ≡ length p
    sieved : IsSieved (i + 1) out

  pub lt_of_square : (i : ℕ) → 1 < i → i * i < limit → i < limit
  lt_of_square i big go = grind arith

  odd_step :
      (fuel i : ℕ) (p : List ℕ) → 1 < i → i * i < limit → IsSieved i p → i % 2 ≡ 1 → Round fuel i p
  odd_step fuel i p big go s odd =
      let lt : i < limit = lt_of_square i big go in
      let read : bit p i ≡ done (flag p i) = bit-flag p i (omega (arith, s.room)) odd in
      elim (Bool-cases (flag p i)) [
        | inl left ↦
            let r =
              mark-IsMarked i limit (omega arith) small (omega arith) limit p (i * i) (omega arith)
                s.room s.bytes in
            record {
              out = r.out;
              steps = unfold sieve_loop in ground (arith, r.returns);
              same_length = r.same_length;
              sieved = IsSieved-mark i p big s r;
            }
        | inr gone ↦ record {
          out = p;
          steps = unfold sieve_loop in ground arith;
          same_length = refl;
          sieved =
              IsSieved-skip i p s
                (λ n k o far e. rw e (Struck-mul i k (s.sound i odd lt gone) far));
        }
      ]

  round : (fuel i : ℕ) (p : List ℕ) → 1 < i → i * i < limit → IsSieved i p → Round fuel i p
  round fuel i p big go s = elim (Bool-cases (i % 2 == 0)) [
    | inl even ↦ record {
      out = p;
      steps = unfold sieve_loop in ground (arith, bit_even p i);
      same_length = refl;
      sieved =
          IsSieved-skip i p s
            (λ n k odd far e. absurd (omega (arith, even-mul i k (ground arith))));
    }
    | inr odd ↦ odd_step fuel i p big go s (ground arith)
  ]

  -- The loop ends with every composite below `limit` struck.
  record Finished (i : ℕ) (p : List ℕ) (run : Outcome (List ℕ)) : Type 0 where
    out : List ℕ
    last : ℕ
    returns : run ≡ done out
    same_length : length out ≡ length p
    covers : limit ≤ last * last
    sieved : IsSieved last out

  square_fits : (i : ℕ) → i ≤ 2 ^ 31 → i * i ≤ 2 ^ 62
  square_fits i h = grind arith

  next_near : (i : ℕ) → i * i < 2 ^ 62 → i + 1 ≤ 2 ^ 31
  next_near i h = elim (dec_lt i (2 ^ 31)) [
    | yes lt ↦ omega arith
    | no ge ↦ absurd (let q : 2 ^ 31 * 2 ^ 31 ≤ i * i = grind arith in omega arith)
  ]

  finish :
      (fuel i : ℕ) (p : List ℕ)
      → limit ≤ i * i
      → i ≤ 2 ^ 31
      → IsSieved i p
      → Finished i p (sieve_loop (suc fuel) p i limit)
  finish fuel i p over near s = record {
    out = p;
    last = i;
    returns = unfold sieve_loop in ground (arith, square_fits i near);
    same_length = refl;
    covers = over;
    sieved = s;
  }

  sieve_loop-Finished :
      (fuel i : ℕ) (p : List ℕ)
      → 1 < i
      → limit ≤ i + fuel
      → i ≤ 2 ^ 31
      → IsSieved i p
      → Finished i p (sieve_loop (suc fuel) p i limit)
  sieve_loop-Finished zero i p big enough near s = finish zero i p (grind arith) near s
  sieve_loop-Finished (suc fuel) i p big enough near s = elim (dec_lt (i * i) limit) [
    | no stop ↦ finish (suc fuel) i p (omega arith) near s
    | yes go ↦
        let r = round (suc fuel) i p big go s in
        let rest =
          sieve_loop-Finished fuel (i + 1) r.out (omega arith) (omega arith)
            (next_near i (omega arith)) r.sieved in
        record {
          out = rest.out;
          last = rest.last;
          returns = r.steps ∙ rest.returns;
          same_length = rest.same_length ∙ r.same_length;
          covers = rest.covers;
          sieved = rest.sieved;
        }
  ]

full_byte : passes_under (test_bit 255) 8 ≡ true
unfolding passes_under
full_byte = refl

-- After `memset` no number is struck.
pub IsSieved-memset :
    (limit : ℕ) (small : limit ≤ 2 ^ 62) (p : List ℕ)
    → limit % 16 ≡ 0
    → length p ≡ bits limit
    → IsSieved limit small 2 (replicate (bits limit) 255 ++ drop (bits limit) p)
unfolding bits
IsSieved-memset limit small p whole room = record {
  room = omega (
    arith,
    length-append (replicate (limit / 2 / 8) 255) (drop (limit / 2 / 8) p),
    length-replicate {A = ℕ} (limit / 2 / 8) 255,
  );
  bytes = λ j. ground (arith, cell j, get_or-ge p j 0);
  sound = λ n odd lt h.
      let full : test_bit 255 (n / 2 % 8) ≡ true =
        passes_under-lt (test_bit 255) 8 (n / 2 % 8) (omega arith) full_byte in
      ground (arith, cell (n / 2 / 8));
  complete = λ n odd lt h. absurd (let (d, k, p, q, r, e) = h in omega arith);
}
  where
    cell :
        (j : ℕ)
        → get_or (replicate (limit / 2 / 8) 255 ++ drop (limit / 2 / 8) p) j 0
          ≡ (if ltb j (limit / 2 / 8) then 255 else get_or p j 0)
    cell j = get_or-replicate-append (limit / 2 / 8) 255 p j 0 (omega arith)

-- What `sieve` promises of the array that it leaves: the bit of an odd number from 3 below
-- `limit` is set exactly if the number is prime.
pub record IsPrimeTable (limit : ℕ) (q : List ℕ) : Type 0 where
  pub same_length : length q ≡ bits limit
  pub reads : (n : ℕ) → n % 2 ≡ 1 → n < limit → bit q n ≡ done (flag q n)
  pub sets : (n : ℕ) → n % 2 ≡ 1 → n < limit → IsPrime n → bit q n ≡ done true
  pub clears : (n : ℕ) → n % 2 ≡ 1 → n < limit → Composite n → bit q n ≡ done false

pub IsPrimeTable-of :
    (limit : ℕ) (small : limit ≤ 2 ^ 62) (last : ℕ) (q : List ℕ)
    → limit % 16 ≡ 0
    → length q ≡ bits limit
    → limit ≤ last * last
    → IsSieved limit small last q
    → IsPrimeTable limit q
unfolding bits
IsPrimeTable-of limit small last q whole len covers s = record {
  same_length = len;
  reads = reads;
  sets = λ n odd lt prime. elim (Bool-cases (flag q n)) [
    | inl set ↦ reads n odd lt ∙ ap done set
    | inr clear ↦ absurd (prime.1 (Composite-of_Struck last n (s.sound n odd lt clear)))
  ];
  clears = λ n odd lt c.
      reads n odd lt ∙ ap done (s.complete n odd lt (Struck-of_Composite last n (omega arith) c));
}
  where
    reads : (n : ℕ) → n % 2 ≡ 1 → n < limit → bit q n ≡ done (flag q n)
    reads n odd lt = bit-flag q n (omega arith) odd

pub memset_lem :
    (p : List ℕ) (n : ℕ)
    → n ≤ length p
    → (memset p n ≡ done (replicate n 255 ++ drop n p))
      × (length (replicate n 255 ++ drop n p) ≡ length p)
unfolding memset
memset_lem p n h = (
  ground arith,
  omega (
    arith,
    length-append (replicate n 255) (drop n p),
    length-replicate {A = ℕ} n 255,
    length-drop n p,
  ),
)

-- For a limit that is a multiple of 16 and at most 2 ^ 62, and an array of the size that `main`
-- allocates, `sieve` stays in bounds, ends, and leaves a table of the primes.
pub sieve_lem :
    (p : List ℕ) (limit : ℕ)
    → limit ≤ 2 ^ 62
    → limit % 16 ≡ 0
    → length p ≡ bits limit
    → (q : List ℕ) × (sieve p limit ≡ done q) × IsPrimeTable limit q
sieve_lem p limit small whole room =
    let start = replicate (bits limit) 255 ++ drop (bits limit) p in
    let cleared = memset_lem p (bits limit) (omega arith) in
    let f =
      sieve_loop-Finished limit small limit 2 start (omega arith) (omega arith) (omega arith)
        (IsSieved-memset limit small p whole room) in
    (
      f.out,
      unfold sieve in rw (cleared.0) f.returns,
      IsPrimeTable-of limit small f.last f.out whole (f.same_length ∙ cleared.1 ∙ room) f.covers
          f.sieved,
    )
