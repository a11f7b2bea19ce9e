-- ===== src/PcpuCheck/Owed.antt =====
-- What holds at each place of `main` and of the threads.
use xtest.Base.{
  ℕ, ◌+◌, ◌≤◌, ◌<◌, ◌≡◌, Bool, true, false, ◌==◌, if◌then◌else◌, ◌⊎◌, inl, inr, Bool-cases, arith,
  refl, ap, ◌∙◌, sym, subst,
}
use xtest.Base.Family.{change, change-same, change-other, sum_upto, sum_one}
use xtest.PcpuCheck.{
  Pc, top, look, checking, noting, acking, leaving, gone, Worker, MainPc, fill, set_ack, set_args,
  set_go, wait, join, Machine, moved,
}

-- Whether a thread has still to lower `g_ack` for the loop that `g_go` tells.
abbrev pub owes : ℕ → Pc → ℕ → ℕ
owes go top last = if last == go then 0 else 1
owes go look last = if last == go then 0 else 1
owes go checking last = 1
owes go noting last = 1
owes go acking last = 1
owes go leaving last = 0
owes go gone last = 0

abbrev pub Good : ℕ → Bool → Pc → ℕ → ℕ → Type 0
Good go exit top last seen = ((last ≡ go) × (seen ≡ go)) ⊎ (last + 1 ≡ go)
Good go exit look last seen = ((last ≡ go) × (seen ≡ go)) ⊎ (last + 1 ≡ go)
Good go exit checking last seen = last + 1 ≡ go
Good go exit noting last seen = (last + 1 ≡ go) × (seen ≡ go)
Good go exit acking last seen = (last ≡ go) × (seen ≡ go)
Good go exit leaving last seen = exit ≡ true
Good go exit gone last seen = exit ≡ true

-- What `main` has set by the time it is at a place.
abbrev pub Set : MainPc → ℕ → Machine → Type 0
Set fill n s = (s.g_go ≡ s.loops) × (s.g_should_exit ≡ false)
Set set_ack n s = (s.g_go ≡ s.loops) × (s.buffer ≡ s.loops + 1) × (s.g_should_exit ≡ false)
Set set_args n s =
    (s.g_go ≡ s.loops) × (s.buffer ≡ s.loops + 1) × (s.g_ack ≡ n) × (s.g_should_exit ≡ false)
Set set_go n s =
    (s.g_go ≡ s.loops)
    × (s.buffer ≡ s.loops + 1)
    × (s.g_ack ≡ n)
    × (s.args ≡ s.loops + 1)
    × (s.g_should_exit ≡ false)
Set wait n s =
    (s.g_go ≡ s.loops + 1)
    × (s.buffer ≡ s.loops + 1)
    × (s.args ≡ s.loops + 1)
    × (s.g_should_exit ≡ false)
Set join n s = s.g_should_exit ≡ true

abbrev pub owed : Machine → ℕ → ℕ
owed s i = owes s.g_go (s.workers i).pc (s.workers i).last

-- What `g_ack` is while `main` waits; else nothing is owed.
abbrev pub Told : MainPc → ℕ → ℕ → Type 0
Told wait ack sum = ack ≡ sum
Told fill ack sum = sum ≡ 0
Told set_ack ack sum = sum ≡ 0
Told set_args ack sum = sum ≡ 0
Told set_go ack sum = sum ≡ 0
Told join ack sum = sum ≡ 0

pub record Sound (n : ℕ) (s : Machine) : Type 0 where
  pub good :
      (i : ℕ)
      → i < n
      → Good s.g_go s.g_should_exit (s.workers i).pc (s.workers i).last (s.workers i).seen
  pub settled : Set s.at n s
  pub told : Told s.at s.g_ack (sum_upto (owed s) n)

-- A thread that owes nothing has seen the current loop's buffer, or is leaving.
pub Good-owes :
    (go : ℕ) (exit : Bool) (pc : Pc) (last seen : ℕ)
    → Good go exit pc last seen
    → owes go pc last ≡ 0
    → exit ≡ false
    → (seen ≡ go) × (last ≡ go)
Good-owes go exit top last seen g o e = ground (arith, g, o)
Good-owes go exit look last seen g o e = ground (arith, g, o)
Good-owes go exit checking last seen g o e = absurd (omega (arith, o))
Good-owes go exit noting last seen g o e = absurd (omega (arith, o))
Good-owes go exit acking last seen g o e = absurd (omega (arith, o))
Good-owes go exit leaving last seen g o e = cc (g, e)
Good-owes go exit gone last seen g o e = cc (g, e)

pub checking-waits : (m : MainPc) (ack sum : ℕ) → Told m ack sum → 1 ≤ sum → m ≡ wait
checking-waits fill ack sum t p = absurd (omega (arith, t, p))
checking-waits set_ack ack sum t p = absurd (omega (arith, t, p))
checking-waits set_args ack sum t p = absurd (omega (arith, t, p))
checking-waits set_go ack sum t p = absurd (omega (arith, t, p))
checking-waits wait ack sum t p = refl
checking-waits join ack sum t p = absurd (omega (arith, t, p))

pub change-owed :
    (n : ℕ) (s : Machine) (i : ℕ) (w : Worker)
    → i < n
    → sum_upto (owed (moved s i w)) n + owes s.g_go (s.workers i).pc (s.workers i).last
      ≡ sum_upto (owed s) n + owes s.g_go w.pc w.last
unfolding moved
change-owed n s i w lt =
    sum_one (owed (moved s i w)) (owed s) i
      (λ j off. ap (λ (v : Worker). owes s.g_go v.pc v.last) (change-other s.workers i w j off)) n
      lt
    ∙ ap (λ (v : Worker). sum_upto (owed s) n + owes s.g_go v.pc v.last) (change-same s.workers i w)

pub change-Good :
    (n : ℕ) (s : Machine) (i : ℕ) (w : Worker)
    → ((j : ℕ)
        → j < n
        → Good s.g_go s.g_should_exit (s.workers j).pc (s.workers j).last (s.workers j).seen)
    → Good s.g_go s.g_should_exit w.pc w.last w.seen
    → (j : ℕ) → j < n
    → Good s.g_go s.g_should_exit
        (change s.workers i w j).pc
        (change s.workers i w j).last
        (change s.workers i w j).seen
change-Good n s i w all new j lt = elim (Bool-cases (i == j)) [
  | inl q ↦ rw q new
  | inr q ↦ rw q (all j lt)
]

pub Set-moved :
    (m : MainPc) (n : ℕ) (s : Machine) (i : ℕ) (w : Worker) → Set m n s → Set m n (moved s i w)
unfolding moved
Set-moved fill n s i w c = c
Set-moved set_ack n s i w c = c
Set-moved set_args n s i w c = c
Set-moved set_go n s i w c = c
Set-moved wait n s i w c = c
Set-moved join n s i w c = c

pub Told-same : (m : MainPc) (ack a b : ℕ) → a ≡ b → Told m ack b → Told m ack a
Told-same m ack a b e t = subst (Told m ack) (sym e) t

pub exit-join : (m : MainPc) (n : ℕ) (s : Machine) → Set m n s → s.g_should_exit ≡ true → m ≡ join
exit-join fill n s (a, e) x = cc (e, x)
exit-join set_ack n s (a, b, e) x = cc (e, x)
exit-join set_args n s (a, b, c, e) x = cc (e, x)
exit-join set_go n s (a, b, c, d, e) x = cc (e, x)
exit-join wait n s (a, b, c, e) x = cc (e, x)
exit-join join n s e x = refl

-- A step of a thread that owes as much after it as before.
pub moved-Sound :
    (n : ℕ) (s : Machine) (i : ℕ) (w : Worker)
    → i < n
    → Sound n s
    → Good s.g_go s.g_should_exit w.pc w.last w.seen
    → owes s.g_go w.pc w.last ≡ owes s.g_go (s.workers i).pc (s.workers i).last
    → Sound n (moved s i w)
unfolding moved
moved-Sound n s i w lt c new same =
    let e = change-owed n s i w lt in
    record {
      good = change-Good n s i w c.good new;
      settled = Set-moved s.at n s i w c.settled;
      told =
          Told-same s.at s.g_ack (sum_upto (owed (moved s i w)) n) (sum_upto (owed s) n)
            (omega (arith, e, same)) c.told;
    }
