-- ===== src/Workqueue/Tests.antt =====
-- A run of a pool of four queues, on one item with a barrier.
use xtest.Base.{ℕ, ◌<◌, ◌≡◌, refl, [], ◌∷◌, some, true, arith}
use xtest.Base.Family.{change}
use xtest.Workqueue.Barrier.{binc, bdec}
use xtest.Workqueue.Station.{Item, Worker, Station, empty_station, insert_tail, Turn, IsConsistent}
use xtest.Workqueue.Pool.{
  Pool, start, enter_barrier, leave_barrier, selqueue, next_rover, Step, Reach, here, next,
}
use xtest.Workqueue.Safety.{in_order_once, barrier_safe, tally, owed}
use xtest.Workqueue.Routing.{routed, key_decides_queue}

abbrev job : Item
job = record { cb = 7; priv = 9; barrier = some 0; key = 5 }

abbrev entered : Pool
entered = record start { counts = enter_barrier (some 0) start.counts; entering = job ∷ [] }

abbrev queued : Pool
queued = record entered {
  stations = change entered.stations 1 (insert_tail job empty_station);
  rover = next_rover 0 5;
  entering = [];
}

abbrev put : Station → Pool → Pool
put w s = record s { stations = change s.stations 1 w }

abbrev busy : Pool
busy = put (record (queued.stations 1) { worker = Worker.draining }) queued

abbrev taken : Pool
taken = put (record (busy.stations 1) { entries = []; items = 0; worker = Worker.running job }) busy

abbrev ran : Pool
ran = put (record (taken.stations 1) { worker = Worker.called job; history = job ∷ [] }) taken

abbrev done : Pool
done = record ran {
  stations = change ran.stations 1 (record (ran.stations 1) { worker = Worker.freed job });
  counts = leave_barrier (some 0) ran.counts;
}

ran-Reach : Reach 4 ran
unfolding selqueue insert_tail
ran-Reach =
    next
      (next
        (next (next (next here (Step.enter job)) (Step.insert [] job [] refl (omega arith)))
          (Step.turn 1 (omega arith) (Turn.busy refl (omega arith))))
        (Step.turn 1 (omega arith) (Turn.remove job [] refl refl)))
      (Step.turn 1 (omega arith) (Turn.call job refl))

done-Reach : Reach 4 done
unfolding selqueue insert_tail
done-Reach = next ran-Reach (Step.release 1 job (omega arith) refl)

in_order_once_example : IsConsistent (done.stations 1)
in_order_once_example = in_order_once 4 done (omega arith) done-Reach 1

barrier_safe_example :
    (tally 0 done.entering ≡ 0) × ((i : ℕ) → i < 4 → owed 0 (done.stations i) ≡ 0)
unfolding binc bdec
barrier_safe_example = barrier_safe 4 done 0 (omega arith) done-Reach refl

job_in_its_queue : routed 4 1 (done.stations 1).inserted ≡ true
job_in_its_queue = key_decides_queue 4 done done-Reach 1
