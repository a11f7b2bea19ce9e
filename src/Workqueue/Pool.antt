-- ===== src/Workqueue/Pool.antt =====
-- The whole pool: up to four queues, the clients inside `workqueue()`, and the barriers.
use xtest.Base.{
  ℕ, ◌+◌, ◌-◌, ◌%◌, ◌^◌, ◌<◌, ◌≡◌, List, [], ◌∷◌, ◌++◌, Option, none, some, true, ltb, ◌==◌,
  if◌then◌else◌,
}
use xtest.Base.Family.{change}
use xtest.Workqueue.Barrier.{binc, bdec}
use xtest.Workqueue.Station.{Item, Worker, Station, empty_station, insert_tail, Turn}

abbrev pub sched_workqueues : ℕ
sched_workqueues = 4

-- `workqueue_init`: the number of queues from the value of `NUMPROC`, if it is set. A value below 1
-- is given as 0.
unfoldable pub nproc_of : Option ℕ → ℕ
nproc_of none = sched_workqueues
nproc_of (some i) = if ltb i 1 then 1 else if ltb sched_workqueues i then sched_workqueues else i

pub record Pool : Type 0 where
  pub stations : ℕ → Station
  pub rover : ℕ
  pub counts : ℕ → ℕ  -- b_count of each barrier
  pub entering : List Item  -- past `binc`, not yet in a queue

abbrev pub start : Pool
start = record { stations = λ _. empty_station; rover = 0; counts = λ _. 0; entering = [] }

-- `if (wi->wi_barrier) binc(wi->wi_barrier)`, and so `bdec`
abbrev pub enter_barrier : Option ℕ → (ℕ → ℕ) → ℕ → ℕ
enter_barrier none counts = counts
enter_barrier (some b) counts = change counts b (binc (counts b))

abbrev pub leave_barrier : Option ℕ → (ℕ → ℕ) → ℕ → ℕ
leave_barrier none counts = counts
leave_barrier (some b) counts = change counts b (bdec (counts b)).b_count

-- `selqueue`: the index of the queue. The static `rover` is an `int`; its update is one step here.
unfoldable pub selqueue : ℕ → ℕ → ℕ → ℕ
selqueue n rover key = if key == 0 then rover % n else key % n

abbrev pub next_rover : ℕ → ℕ → ℕ
next_rover rover key = if key == 0 then rover + 1 else rover

-- The steps of a pool with `n` queues.
pub data Step (n : ℕ) (s : Pool) : Pool → Type 0 where
  enter :
      (it : Item)
      → Step n s
          (record s { counts = enter_barrier it.barrier s.counts; entering = it ∷ s.entering })
  insert :
      (before : List Item) (it : Item) (after : List Item)
      → s.entering ≡ before ++ it ∷ after
      → s.rover < 2 ^ 31 - 1
      → Step n s (
          let i = selqueue n s.rover it.key in
          record s {
            stations = change s.stations i (insert_tail it (s.stations i));
            rover = next_rover s.rover it.key;
            entering = before ++ after;
          })
  turn :
      (i : ℕ) {w : Station}
      → i < n
      → Turn (s.stations i) w
      → Step n s (record s { stations = change s.stations i w })
  release :
      (i : ℕ) (it : Item)
      → i < n
      → (s.stations i).worker ≡ Worker.called it
      → Step n s (record s {
        stations = change s.stations i (record (s.stations i) { worker = Worker.freed it });
        counts = leave_barrier it.barrier s.counts;
      })
  shut :
      (i : ℕ)
      → i < n
      → Step n s (record s {
        stations = change s.stations i (record (s.stations i) { should_exit = true });
      })

pub data Reach (n : ℕ) : Pool → Type 0 where
  here : Reach n start
  next : {s t : Pool} → Reach n s → Step n s t → Reach n t
