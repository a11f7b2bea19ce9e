-- ===== src/Phash/Owners.antt =====
-- Each file is in the vector, with one thread, or run.
use xtest.Base.{
  ℕ, ◌+◌, ◌-◌, ◌<◌, ◌≡◌, List, [], ◌∷◌, ◌==◌, if◌then◌else◌, ◌⊎◌, inl, inr, arith, refl, ap, ◌∙◌,
  sym,
}
use xtest.Base.Family.{change, change-same, change-other, sum_upto, sum_one, sum_zero, sum_ones}
use xtest.Phash.{
  Pc, idle, busy, gone, MainPc, look, asleep, returned, Pool, woken, started, Step, takes, runs,
  leaves, sleeps, wakes, returns, Reachable, start, next,
}

abbrev pub alive : Pc → ℕ
alive idle = 1
alive (busy file) = 1
alive gone = 0

abbrev pub holds : ℕ → Pc → ℕ
holds f idle = 0
holds f (busy file) = if file == f then 1 else 0
holds f gone = 0

unfoldable pub times : ℕ → List ℕ → ℕ
times f [] = 0
times f (x ∷ xs) = (if x == f then 1 else 0) + times f xs

-- The sum over the threads, when one of them moves.
pub change-sum :
    (measure : Pc → ℕ) (at : ℕ → Pc) (nproc t : ℕ) (before after : Pc)
    → t < nproc
    → at t ≡ before
    → sum_upto (λ i. measure (change at t after i)) nproc + measure before
      ≡ sum_upto (λ i. measure (at i)) nproc + measure after
change-sum measure at nproc t before after lt e = rw (← e) (
    sum_one (λ i. measure (change at t after i)) (λ i. measure (at i)) t
      (λ j off. ap measure (change-other at t after j off)) nproc lt
    ∙ ap (λ p. sum_upto (λ i. measure (at i)) nproc + measure p) (change-same at t after))

-- What `main` knows.
abbrev pub Known : MainPc → ℕ → Type 0
Known look running = Unit {0}
Known asleep running = 0 < running
Known returned running = running ≡ 0

pub record Sound (nproc : ℕ) (files : List ℕ) (s : Pool) : Type 0 where
  pub counted : s.running ≡ sum_upto (λ i. alive (s.at i)) nproc
  pub kept :
      (f : ℕ)
      → times f s.files + sum_upto (λ i. holds f (s.at i)) nproc + times f s.ran ≡ times f files
  pub full : (s.files ≡ []) ⊎ (s.running ≡ nproc)
  pub known : Known s.main s.running

start-Sound : (nproc : ℕ) (files : List ℕ) → Sound nproc files (started nproc files)
unfolding times
start-Sound nproc files = record {
  counted = sym (sum_ones (λ i. 1) nproc (λ i lt. refl));
  kept = λ f. omega (arith, sum_zero nproc);
  full = inr refl;
  known = tt;
}

woken-Known : (m : MainPc) (running : ℕ) → Known m running → Known (woken m) (running - 1)
woken-Known look running k = tt
woken-Known asleep running k = tt
woken-Known returned running k = omega (arith, k)

pub Step-Sound :
    (nproc : ℕ) (files : List ℕ) (s t : Pool)
    → Step nproc s t
    → Sound nproc files s
    → Sound nproc files t
unfolding times
Step-Sound nproc files _ _ (takes s t file rest lt e q) c =
    let alive_same = change-sum alive s.at nproc t idle (busy file) lt e in
    let held = λ (f : ℕ). change-sum (holds f) s.at nproc t idle (busy file) lt e in
    record {
      counted = omega (arith, alive_same, c.counted);
      kept = λ f.
          let q' : times f s.files ≡ times f (file ∷ rest) = ap (times f) q in
          omega (arith, held f, c.kept f, q');
      full = elim c.full [ inl empty ↦ absurd cc | inr all ↦ inr all ];
      known = c.known;
    }
Step-Sound nproc files _ _ (runs s t file lt e) c =
    let alive_same = change-sum alive s.at nproc t (busy file) idle lt e in
    let held = λ (f : ℕ). change-sum (holds f) s.at nproc t (busy file) idle lt e in
    record {
      counted = omega (arith, alive_same, c.counted);
      kept = λ f. omega (arith, held f, c.kept f);
      full = c.full;
      known = c.known;
    }
Step-Sound nproc files _ _ (leaves s t lt e q) c =
    let alive_same = change-sum alive s.at nproc t idle gone lt e in
    let held = λ (f : ℕ). change-sum (holds f) s.at nproc t idle gone lt e in
    record {
      counted = omega (arith, alive_same, c.counted);
      kept = λ f. omega (arith, held f, c.kept f);
      full = inl q;
      known = woken-Known s.main s.running c.known;
    }
Step-Sound nproc files _ _ (sleeps s e more) c = record {
  counted = c.counted;
  kept = c.kept;
  full = c.full;
  known = omega (arith, more);
}
Step-Sound nproc files _ _ (wakes s e) c = record {
  counted = c.counted;
  kept = c.kept;
  full = c.full;
  known = tt;
}
Step-Sound nproc files _ _ (returns s e none) c = record {
  counted = c.counted;
  kept = c.kept;
  full = c.full;
  known = none;
}

pub Reachable-Sound :
    (nproc : ℕ) (files : List ℕ) (s : Pool) → Reachable nproc files s → Sound nproc files s
Reachable-Sound nproc files _ (start s e) = rw e (start-Sound nproc files)
Reachable-Sound nproc files _ (next s t r step) =
    Step-Sound nproc files s t step (Reachable-Sound nproc files s r)
