-- ===== src/PcpuCheck.antt =====
-- pcpucheck.cc: how `main` hands a buffer to the threads of `check` and waits for them. One step is one
-- access to an atomic variable, or the work between two of them. A mismatch of hashes aborts the
-- program; here the memory is right, and what is followed is which loop's buffer is in place. A loop's
-- number, at most INT_MAX, fits in 32 bits.
pub mod Owed
pub mod Threads
pub mod Rounds
pub mod Tests
use xtest.Base.{ℕ, ◌+◌, ◌-◌, ◌^◌, ◌<◌, ◌≡◌, ◌≢◌, Bool, true, false, ◌==◌, if◌then◌else◌}
use xtest.Base.Family.{change}

-- Where a thread of `check` is: before it reads `g_should_exit`, before it reads `g_go`, before it
-- hashes, before it sets `last`, before it lowers `g_ack`, before it does that to leave, or gone.
pub data Pc : Type 0 where
  top : Pc
  look : Pc
  checking : Pc
  noting : Pc
  acking : Pc
  leaving : Pc
  gone : Pc

-- `seen` is the loop whose buffer the thread hashed last.
pub record Worker : Type 0 where
  pub pc : Pc
  pub last : ℕ
  pub seen : ℕ

-- Where `main` is in its loop.
pub data MainPc : Type 0 where
  fill : MainPc
  set_ack : MainPc
  set_args : MainPc
  set_go : MainPc
  wait : MainPc
  join : MainPc

-- `buffer` and `args` are the number, plus one, of the loop that filled the buffer and `g_args`.
pub record Machine : Type 0 where
  pub at : MainPc
  pub loops : ℕ
  pub buffer : ℕ
  pub args : ℕ
  pub g_ack : ℕ
  pub g_go : ℕ
  pub g_should_exit : Bool
  pub workers : ℕ → Worker

abbrev pub booted : Machine
booted = record {
  at = fill;
  loops = 0;
  buffer = 0;
  args = 0;
  g_ack = 0;
  g_go = 0;
  g_should_exit = false;
  workers = λ i. record { pc = top; last = 0; seen = 0 };
}

unfoldable pub moved : Machine → ℕ → Worker → Machine
moved s i w = record s { workers = change s.workers i w }

-- `g_ack--` on an unsigned 32-bit number.
unfoldable pub lower_ack : Machine → Machine
lower_ack s = record s { g_ack = if s.g_ack == 0 then 2 ^ 32 - 1 else s.g_ack - 1 }

-- The steps of `main` and of the threads below `cpus`.
pub data Step (cpus : ℕ) : Machine → Machine → Type 0 where
  fills :
      (s : Machine) → s.at ≡ fill → Step cpus s (record s { at = set_ack; buffer = s.loops + 1 })
  acks : (s : Machine) → s.at ≡ set_ack → Step cpus s (record s { at = set_args; g_ack = cpus })
  passes :
      (s : Machine) → s.at ≡ set_args → Step cpus s (record s { at = set_go; args = s.loops + 1 })
  goes : (s : Machine) → s.at ≡ set_go → Step cpus s (record s { at = wait; g_go = s.loops + 1 })
  waits :
      (s : Machine)
      → s.at ≡ wait
      → s.g_ack ≡ 0
      → Step cpus s (record s { at = fill; loops = s.loops + 1 })
  exits : (s : Machine) → s.at ≡ fill → Step cpus s (record s { at = join; g_should_exit = true })
  stays :
      (s : Machine) (i : ℕ)
      → i < cpus
      → (s.workers i).pc ≡ top
      → s.g_should_exit ≡ false
      → Step cpus s
          (moved s i (record { pc = look; last = (s.workers i).last; seen = (s.workers i).seen }))
  leaves :
      (s : Machine) (i : ℕ)
      → i < cpus
      → (s.workers i).pc ≡ top
      → s.g_should_exit ≡ true
      → Step cpus s (
          moved s i (record { pc = leaving; last = (s.workers i).last; seen = (s.workers i).seen }))
  ends :
      (s : Machine) (i : ℕ)
      → i < cpus
      → (s.workers i).pc ≡ leaving
      → Step cpus s (
          lower_ack (
            moved s i (record { pc = gone; last = (s.workers i).last; seen = (s.workers i).seen })))
  pauses :
      (s : Machine) (i : ℕ)
      → i < cpus
      → (s.workers i).pc ≡ look
      → (s.workers i).last ≡ s.g_go
      → Step cpus s
          (moved s i (record { pc = top; last = (s.workers i).last; seen = (s.workers i).seen }))
  starts :
      (s : Machine) (i : ℕ)
      → i < cpus
      → (s.workers i).pc ≡ look
      → (s.workers i).last ≢ s.g_go
      → Step cpus s (
          moved s i
            (record { pc = checking; last = (s.workers i).last; seen = (s.workers i).seen }))
  checks :
      (s : Machine) (i : ℕ)
      → i < cpus
      → (s.workers i).pc ≡ checking
      → Step cpus s (moved s i (record { pc = noting; last = (s.workers i).last; seen = s.buffer }))
  notes :
      (s : Machine) (i : ℕ)
      → i < cpus
      → (s.workers i).pc ≡ noting
      → Step cpus s (moved s i (record { pc = acking; last = s.g_go; seen = (s.workers i).seen }))
  lowers :
      (s : Machine) (i : ℕ)
      → i < cpus
      → (s.workers i).pc ≡ acking
      → Step cpus s (
          lower_ack
            (moved s i (record { pc = top; last = (s.workers i).last; seen = (s.workers i).seen })))

pub data Reachable (cpus : ℕ) : Machine → Type 0 where
  start : (s : Machine) → s ≡ booted → Reachable cpus s
  next : (s t : Machine) → Reachable cpus s → Step cpus s t → Reachable cpus t
