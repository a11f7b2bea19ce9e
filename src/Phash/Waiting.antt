-- ===== src/Phash/Waiting.antt =====
-- `main` returns when all is done, and is never left asleep.
use xtest.Base.{ℕ, ◌+◌, ◌<◌, ◌≡◌, ◌≢◌, List, inl, inr, arith, refl, ap}
use xtest.Base.Family.{sum_upto, term-le-sum, sum_none, some_term}
use xtest.Phash.{Pc, idle, busy, gone, MainPc, look, asleep, returned, Pool, Reachable}
use xtest.Phash.Owners.{alive, holds, times, Known, Sound, Reachable-Sound}

gone_of : (p : Pc) → alive p ≡ 0 → p ≡ gone
gone_of idle e = absurd (omega (arith, e))
gone_of (busy file) e = absurd (omega (arith, e))
gone_of gone e = refl

-- What `main` can rely on, by where it is.
abbrev pub Waited : ℕ → List ℕ → Pool → MainPc → Type 0
Waited nproc files s look = Unit {0}
Waited nproc files s asleep = (t : ℕ) × (t < nproc) × (s.at t ≢ gone)
Waited nproc files s returned =
    ((t : ℕ) → t < nproc → s.at t ≡ gone) × ((f : ℕ) → times f s.ran ≡ times f files)

module _ (nproc : ℕ) (files : List ℕ) (s : Pool) (some_thread : 0 < nproc)
    (c : Sound nproc files s) where
  all_gone : s.running ≡ 0 → (t : ℕ) → t < nproc → s.at t ≡ gone
  all_gone none t lt =
      gone_of (s.at t)
        (omega (arith, term-le-sum (λ i. alive (s.at i)) nproc t lt, c.counted, none))

  all_run : s.running ≡ 0 → (f : ℕ) → times f s.ran ≡ times f files
  unfolding times
  all_run none f =
      let held : sum_upto (λ i. holds f (s.at i)) nproc ≡ 0 =
        sum_none (λ i. holds f (s.at i)) nproc (λ i lt. ap (holds f) (all_gone none i lt)) in
      elim c.full [
        | inr all ↦ absurd (omega (arith, all, none))
        | inl empty ↦
            let over : times f s.files ≡ 0 = ap (times f) empty in
            omega (arith, c.kept f, held, over)
      ]

  waited : (m : MainPc) → Known m s.running → Waited nproc files s m
  waited look k = tt
  waited asleep k =
      let (t, lt, p) = some_term (λ i. alive (s.at i)) nproc (omega (arith, k, c.counted)) in
      (t, lt, λ e. absurd (let q : alive (s.at t) ≡ 0 = ap alive e in omega arith))
  waited returned k = (all_gone k, all_run k)

-- In every reachable state, with a thread or more: each file is in the vector, with one thread or run,
-- as often as it was given; when `main` is asleep a thread is still there, which will wake it; and when
-- it has returned all threads are gone and each file has been run as often as it was given.
pub phash_lem :
    (nproc : ℕ) (files : List ℕ) (s : Pool)
    → 0 < nproc
    → Reachable nproc files s
    → ((f : ℕ)
        → times f s.files + sum_upto (λ i. holds f (s.at i)) nproc + times f s.ran ≡ times f files)
      × Waited nproc files s s.main
phash_lem nproc files s pos r =
    let c = Reachable-Sound nproc files s r in (c.kept, waited nproc files s pos c s.main c.known)
