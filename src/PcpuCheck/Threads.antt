-- ===== src/PcpuCheck/Threads.antt =====
-- The steps of a thread that depend on where `main` is.
use xtest.Base.{ℕ, ◌<◌, ◌≡◌, inl, arith, refl, ap, sym, subst}
use xtest.Base.Family.{sum_upto, term-le-sum}
use xtest.PcpuCheck.{
  Pc, top, checking, noting, acking, leaving, gone, Worker, wait, Machine, moved, lower_ack,
}
use xtest.PcpuCheck.Owed.{
  owes, Good, Set, owed, Told, Sound, checking-waits, change-owed, change-Good, exit-join,
  moved-Sound,
}

module _ (n : ℕ) (s : Machine) (c : Sound n s) (i : ℕ) (lt : i < n) where
  pub worker-Good :
      (p : Pc)
      → (s.workers i).pc ≡ p
      → Good s.g_go s.g_should_exit p (s.workers i).last (s.workers i).seen
  worker-Good p e =
      subst (λ q. Good s.g_go s.g_should_exit q (s.workers i).last (s.workers i).seen) e
        (c.good i lt)

  pub worker-owes :
      (p : Pc)
      → (s.workers i).pc ≡ p
      → owes s.g_go p (s.workers i).last ≡ owes s.g_go (s.workers i).pc (s.workers i).last
  worker-owes p e = ap (λ q. owes s.g_go q (s.workers i).last) (sym e)

  pub main_waits :
      (p : Pc) → (s.workers i).pc ≡ p → owes s.g_go p (s.workers i).last ≡ 1 → s.at ≡ wait
  main_waits p e one =
      let le = term-le-sum (owed s) n i lt in
      checking-waits s.at s.g_ack (sum_upto (owed s) n) c.told
        (omega (arith, le, one, worker-owes p e))

  pub checks-Sound :
      (s.workers i).pc ≡ checking
      → Sound n (moved s i (record { pc = noting; last = (s.workers i).last; seen = s.buffer }))
  checks-Sound e =
      let (a, b, d, x) = subst (λ m. Set m n s) (main_waits checking e refl) c.settled in
      moved-Sound n s i _ lt c (worker-Good checking e, omega (arith, a, b))
        (worker-owes checking e)

  pub lowers-Sound :
      (s.workers i).pc ≡ acking
      → Sound n (
          lower_ack
            (moved s i (record { pc = top; last = (s.workers i).last; seen = (s.workers i).seen })))
  unfolding lower_ack moved
  lowers-Sound e =
      let at_wait = main_waits acking e refl in
      let w : Worker = record { pc = top; last = (s.workers i).last; seen = (s.workers i).seen } in
      let (last_is, seen_is) = worker-Good acking e in
      let sums = change-owed n s i w lt in
      let told : s.g_ack ≡ sum_upto (owed s) n =
        subst (λ m. Told m s.g_ack (sum_upto (owed s) n)) at_wait c.told in
      record {
        good = change-Good n s i w c.good (inl (last_is, seen_is));
        settled =
            subst (λ m. Set m n (lower_ack (moved s i w))) (sym at_wait)
              (subst (λ m. Set m n s) at_wait c.settled);
        told =
            subst (λ m. Told m (lower_ack (moved s i w)).g_ack (sum_upto (owed (moved s i w)) n))
              (sym at_wait) (ground (arith, sums, worker-owes acking e, told, last_is));
      }

  pub ends-Sound :
      (s.workers i).pc ≡ leaving
      → Sound n (
          lower_ack (
            moved s i (record { pc = gone; last = (s.workers i).last; seen = (s.workers i).seen })))
  unfolding lower_ack moved
  ends-Sound e =
      let w : Worker = record { pc = gone; last = (s.workers i).last; seen = (s.workers i).seen } in
      let exits = worker-Good leaving e in
      let at_join = exit-join s.at n s c.settled exits in
      let sums = change-owed n s i w lt in
      let t : sum_upto (owed s) n ≡ 0 =
        subst (λ m. Told m s.g_ack (sum_upto (owed s) n)) at_join c.told in
      record {
        good = change-Good n s i w c.good exits;
        settled = subst (λ m. Set m n (lower_ack (moved s i w))) (sym at_join) exits;
        told =
            subst (λ m. Told m (lower_ack (moved s i w)).g_ack (sum_upto (owed (moved s i w)) n))
              (sym at_join) (omega (arith, sums, worker-owes leaving e, t));
      }
