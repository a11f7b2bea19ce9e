-- ===== src/PcpuCheck/Rounds.antt =====
-- Each loop's buffer stays while it is hashed, and is hashed by every thread.
use xtest.Base.{
  ℕ, ◌+◌, ◌<◌, ◌≡◌, ◌≢◌, Bool, true, false, ◌⊎◌, inl, inr, arith, refl, ap, ◌∙◌, sym, subst,
}
use xtest.Base.Family.{sum_upto, sum_zero, sum_ones, term-le-sum}
use xtest.PcpuCheck.{
  Pc, top, look, checking, noting, acking, leaving, gone, MainPc, fill, set_ack, set_args, set_go,
  wait, Machine, booted, moved, Step, fills, acks, passes, goes, waits, exits, stays, leaves, ends,
  pauses, starts, checks, notes, lowers, Reachable, start, next,
}
use xtest.PcpuCheck.Owed.{owes, Good, Set, owed, Told, Sound, Good-owes, exit-join, moved-Sound}
use xtest.PcpuCheck.Threads.{
  worker-Good, worker-owes, main_waits, checks-Sound, lowers-Sound, ends-Sound,
}

-- With nothing owed and no exit, every thread has last hashed the buffer of the loop that `g_go` tells.
quiet :
    (n : ℕ) (s : Machine)
    → Sound n s
    → s.g_should_exit ≡ false
    → sum_upto (owed s) n ≡ 0
    → (i : ℕ) → i < n
    → ((s.workers i).seen ≡ s.g_go) × ((s.workers i).last ≡ s.g_go)
quiet n s c run none_owed i lt =
    let le = term-le-sum (owed s) n i lt in
    Good-owes s.g_go s.g_should_exit (s.workers i).pc (s.workers i).last (s.workers i).seen
      (c.good i lt) (omega (arith, le, none_owed)) run

boot-Sound : (n : ℕ) → Sound n booted
boot-Sound n = record { good = λ i lt. inl (refl, refl); settled = (refl, refl); told = sum_zero n }

-- `g_go = loops + 1` makes every thread owe.
go-Good :
    (go : ℕ) (exit : Bool) (pc : Pc) (last seen : ℕ)
    → Good go exit pc last seen
    → owes go pc last ≡ 0
    → exit ≡ false
    → Good (go + 1) exit pc last seen × (owes (go + 1) pc last ≡ 1)
go-Good go exit top last seen g o e = ground (arith, g, o)
go-Good go exit look last seen g o e = ground (arith, g, o)
go-Good go exit checking last seen g o e = absurd (omega (arith, o))
go-Good go exit noting last seen g o e = absurd (omega (arith, o))
go-Good go exit acking last seen g o e = absurd (omega (arith, o))
go-Good go exit leaving last seen g o e = cc (g, e)
go-Good go exit gone last seen g o e = cc (g, e)

go-Sound :
    (n : ℕ) (s : Machine)
    → s.at ≡ set_go
    → Sound n s
    → Sound n (record s { at = wait; g_go = s.loops + 1 })
go-Sound n s e c =
    let (a, b, k, d, x) = subst (λ m. Set m n s) e c.settled in
    let none_owed : sum_upto (owed s) n ≡ 0 =
      subst (λ m. Told m s.g_ack (sum_upto (owed s) n)) e c.told in
    let now : s.loops + 1 ≡ s.g_go + 1 = omega (arith, a) in
    let each = λ (i : ℕ) (lt : i < n).
      (let le = term-le-sum (owed s) n i lt in
        go-Good s.g_go s.g_should_exit (s.workers i).pc (s.workers i).last (s.workers i).seen
          (c.good i lt) (omega (arith, le, none_owed)) x) in
    record {
      good = λ i lt.
          subst (λ g. Good g s.g_should_exit (s.workers i).pc (s.workers i).last (s.workers i).seen)
            (sym now) (each i lt).0;
      settled = (refl, b, d, x);
      told =
          k
          ∙ sym (
              sum_ones _ n
                (λ i lt. ap (λ g. owes g (s.workers i).pc (s.workers i).last) now ∙ (each i lt).1));
    }

exit-Good :
    (go : ℕ) (exit : Bool) (pc : Pc) (last seen : ℕ)
    → Good go exit pc last seen
    → Good go true pc last seen
exit-Good go exit top last seen g = g
exit-Good go exit look last seen g = g
exit-Good go exit checking last seen g = g
exit-Good go exit noting last seen g = g
exit-Good go exit acking last seen g = g
exit-Good go exit leaving last seen g = refl
exit-Good go exit gone last seen g = refl

starts-Good :
    (go last seen : ℕ) → ((last ≡ go) × (seen ≡ go)) ⊎ (last + 1 ≡ go) → last ≢ go → last + 1 ≡ go
starts-Good go last seen (inl (a, b)) differ = absurd (differ a)
starts-Good go last seen (inr a) differ = a

main-Sound :
    (n : ℕ) (s : Machine) (m : MainPc)
    → s.at ≡ m
    → Sound n s
    → Set m n s × Told m s.g_ack (sum_upto (owed s) n)
main-Sound n s m e c =
    (subst (λ k. Set k n s) e c.settled, subst (λ k. Told k s.g_ack (sum_upto (owed s) n)) e c.told)

Step-Sound : (n : ℕ) {s t : Machine} → Step n s t → Sound n s → Sound n t
unfolding moved
Step-Sound n (fills s e) c =
    let ((a, x), t) = main-Sound n s fill e c in
    record { good = c.good; settled = (a, refl, x); told = t }
Step-Sound n (acks s e) c =
    let ((a, b, x), t) = main-Sound n s set_ack e c in
    record { good = c.good; settled = (a, b, refl, x); told = t }
Step-Sound n (passes s e) c =
    let ((a, b, k, x), t) = main-Sound n s set_args e c in
    record { good = c.good; settled = (a, b, k, refl, x); told = t }
Step-Sound n (goes s e) c = go-Sound n s e c
Step-Sound n (waits s e zero_ack) c =
    let ((a, b, d, x), t) = main-Sound n s wait e c in
    record { good = c.good; settled = (a, x); told = cc (t, zero_ack) }
Step-Sound n (exits s e) c =
    let ((a, x), t) = main-Sound n s fill e c in
    record {
      good = λ i lt.
          exit-Good s.g_go s.g_should_exit (s.workers i).pc (s.workers i).last (s.workers i).seen
            (c.good i lt);
      settled = refl;
      told = t;
    }
Step-Sound n (stays s i lt e x) c =
    moved-Sound n s i _ lt c (worker-Good n s c i lt top e) (worker-owes n s c i lt top e)
Step-Sound n (leaves s i lt e x) c =
    let t =
      subst (λ m. Told m s.g_ack (sum_upto (owed s) n)) (exit-join s.at n s c.settled x) c.told in
    let le = term-le-sum (owed s) n i lt in
    moved-Sound n s i
      (record { pc = leaving; last = (s.workers i).last; seen = (s.workers i).seen }) lt c x
      (omega (arith, le, t))
Step-Sound n (ends s i lt e) c = ends-Sound n s c i lt e
Step-Sound n (pauses s i lt e same) c =
    moved-Sound n s i _ lt c (worker-Good n s c i lt look e) (worker-owes n s c i lt look e)
Step-Sound n (starts s i lt e differ) c =
    let g =
      starts-Good s.g_go (s.workers i).last (s.workers i).seen (worker-Good n s c i lt look e)
        differ in
    moved-Sound n s i
      (record { pc = checking; last = (s.workers i).last; seen = (s.workers i).seen }) lt c g
      (ground (arith, worker-owes n s c i lt look e, differ))
Step-Sound n (checks s i lt e) c = checks-Sound n s c i lt e
Step-Sound n (notes s i lt e) c =
    let (a, b) = worker-Good n s c i lt noting e in
    moved-Sound n s i (record { pc = acking; last = s.g_go; seen = (s.workers i).seen }) lt c
      (refl, b) (worker-owes n s c i lt noting e)
Step-Sound n (lowers s i lt e) c = lowers-Sound n s c i lt e

Reachable-Sound : (n : ℕ) {s : Machine} → Reachable n s → Sound n s
Reachable-Sound n (start s e) = subst (Sound n) (sym e) (boot-Sound n)
Reachable-Sound n (next s t r step) = Step-Sound n step (Reachable-Sound n r)

pub record Handed (n : ℕ) (s : Machine) : Type 0 where
  pub undisturbed :
      (i : ℕ)
      → i < n
      → (s.workers i).pc ≡ checking
      → (s.at ≡ wait) × (s.buffer ≡ s.g_go) × (s.args ≡ s.g_go)
  pub all_seen : s.at ≡ wait → s.g_ack ≡ 0 → (i : ℕ) → i < n → ((s.workers i).seen ≡ s.loops + 1)

-- In every state that `main` and its threads can reach: while a thread hashes, `main` waits, and the
-- buffer and `g_args` are those of the loop that `g_go` tells; and when `main` may go on from its wait,
-- every thread has hashed this loop's buffer.
pub handed_lem : (n : ℕ) (s : Machine) → Reachable n s → Handed n s
handed_lem n s r =
    let c = Reachable-Sound n r in
    record {
      undisturbed = λ i lt e.
          let at_wait = main_waits n s c i lt checking e refl in
          let ((a, b, d, x), t) = main-Sound n s wait at_wait c in
          (at_wait, omega (arith, a, b), omega (arith, a, d));
      all_seen = λ at_wait done_all i lt.
          let ((a, b, d, x), t) = main-Sound n s wait at_wait c in
          let (seen_is, last_is) = quiet n s c x (cc (t, done_all)) i lt in seen_is ∙ a;
    }
