-- ===== src/Pwc/System.antt =====
-- The two threads of pwc.c, interleaved at each access of a ring. The main thread walks the tree
-- and prints, the other counts. The counters are taken to stay in the range of `int`, and files
-- that do not open are left out. A last `reap_done` with nothing to print stores the value that is
-- already there.
mod Ready
mod Invariant
pub mod Order
use xtest.Base.{
  ℕ, suc, ◌+◌, ◌-◌, ◌/◌, ◌<◌, ◌≡◌, ◌⊎◌, refl, List, [], ◌∷◌, arith, Bool, true, false, Outcome,
  done,
}
use xtest.Pwc.Lines.{File, lines, blank}
use xtest.Pwc.Ring.{
  Ring, fifo_size, fresh, is_full, store, publish, is_empty, take_front, front, acknowledge,
}

-- Inside `push` or `wpush` of `f`: at the spin loop, past it, and with the slot filled.
pub data Push : Type 0 where
  spinning : File → Push
  admitted : File → Push
  stored : File → Push

-- The main thread: in `ftw`, in `push`, at the test of `wdone()`, in `reap_done`, and after the walk
-- in `pthread_join` and the last `reap_done`.
pub data Main : Type 0 where
  walking : Main
  pushing : Push → Main
  checking : Main
  reaping : Main
  joining : Main
  last_reaping : Main
  ended : Main

-- `iothread`: at the top of its loop, past the read of `should_exit_`, in the inner loop, in
-- `wpush`, and past its end.
pub data Io : Type 0 where
  top : Io
  polling : Bool → Io
  draining : Bool → Io
  counting : Bool → Push → Io
  drained : Bool → Io
  stopped : Io

pub record System : Type 0 where
  pub work : Ring File  -- fifo_
  pub finished : Ring File  -- wfifo_
  pub should_exit : Bool
  pub main : Main
  pub io : Io

abbrev pub start : System
start = record {
  work = fresh blank;
  finished = fresh blank;
  should_exit = false;
  main = Main.walking;
  io = Io.top;
}

-- What `lines` returned; it always returns.
abbrev pub returned : Outcome ℕ → ℕ
returned (done n) = n
returned _ = 0

-- `f->lines = lines(f)`
abbrev pub count : File → File
count f = record f { lines = returned (lines f) }

abbrev pub keep : File → File
keep f = f

-- `push` on a ring, one access at a time.
pub data PushStep (r : Ring File) : Push → Ring File → Push → Type 0 where
  spin : (f : File) → is_full r ≡ true → PushStep r (spinning f) r (spinning f)
  admit : (f : File) → is_full r ≡ false → PushStep r (spinning f) r (admitted f)
  fill : (f : File) → PushStep r (admitted f) (store f r) (stored f)

-- Steps of the main thread.
pub data MainStep (s : System) : Main → System → Type 0 where
  visit : (f : File) → MainStep s walking (record s { main = pushing (spinning f) })
  visit_other : MainStep s walking (record s { main = checking })
  push :
      {p q : Push} {r : Ring File}
      → PushStep s.work p r q
      → MainStep s (pushing p) (record s { work = r; main = pushing q })
  push_end :
      (f : File)
      → MainStep s (pushing (stored f)) (record s { work = publish f s.work; main = checking })
  few :
      s.finished.head - s.finished.acked < fifo_size / 2 + 1
      → MainStep s checking (record s { main = walking })
  many :
      fifo_size / 2 < s.finished.head - s.finished.acked
      → MainStep s checking (record s { main = reaping })
  print_item :
      is_empty s.finished ≡ false
      → MainStep s reaping (record s { finished = take_front keep s.finished })
  reaped :
      is_empty s.finished ≡ true
      → MainStep s reaping (record s { finished = acknowledge s.finished; main = walking })
  leave : MainStep s walking (record s { should_exit = true; main = joining })
  join : s.io ≡ stopped → MainStep s joining (record s { main = last_reaping })
  print_last :
      is_empty s.finished ≡ false
      → MainStep s last_reaping (record s { finished = take_front keep s.finished })
  leave_last :
      is_empty s.finished ≡ true
      → MainStep s last_reaping (record s { finished = acknowledge s.finished; main = ended })

-- Steps of `iothread`.
pub data IoStep (s : System) : Io → System → Type 0 where
  poll : IoStep s top (record s { io = polling s.should_exit })
  idle : is_empty s.work ≡ true → IoStep s (polling false) (record s { io = top })
  enter : (b : Bool) → is_empty s.work ≡ false → IoStep s (polling b) (record s { io = draining b })
  count_item :
      (b : Bool)
      → is_empty s.work ≡ false
      → IoStep s (draining b) (record s {
        work = take_front count s.work;
        io = counting b (spinning (count (front s.work)));
      })
  wpush :
      (b : Bool) {p q : Push} {r : Ring File}
      → PushStep s.finished p r q
      → IoStep s (counting b p) (record s { finished = r; io = counting b q })
  wpush_end :
      (b : Bool) (f : File)
      → IoStep s
          (counting b (stored f))
          (record s { finished = publish f s.finished; io = draining b })
  empty_now :
      (b : Bool) → is_empty s.work ≡ true → IoStep s (draining b) (record s { io = drained b })
  ack : IoStep s (drained false) (record s { work = acknowledge s.work; io = top })
  ack_exit : IoStep s (drained true) (record s { work = acknowledge s.work; io = stopped })
  exit : is_empty s.work ≡ true → IoStep s (polling true) (record s { io = stopped })

pub data Step (s : System) : System → Type 0 where
  main_step : {t : System} → MainStep s s.main t → Step s t
  io_step : {t : System} → IoStep s s.io t → Step s t

pub data Reach : System → Type 0 where
  here : Reach start
  next : {s t : System} → Reach s → Step s t → Reach t
