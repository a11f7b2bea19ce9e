-- ===== src/Workqueue/Safety.antt =====
-- What holds of the pool in every reachable state.
use xtest.Base.{
  ℕ, ◌+◌, ◌≤◌, ◌<◌, ◌≡◌, ap, List, [], ◌∷◌, ◌++◌, Option, none, some, Bool, true, false, ◌==◌,
  if◌then◌else◌, arith,
}
use xtest.Base.Family.{change, change-same, change-other, sum_upto, sum_one, sum_zero, term-le-sum}
use xtest.Workqueue.Barrier.{binc, bdec, bwait_returns}
use xtest.Workqueue.Station.{
  Item, Worker, Station, insert_tail, Turn, IsConsistent, empty_station-IsConsistent,
  insert_tail-IsConsistent, Turn-IsConsistent, freed-IsConsistent,
}
use xtest.Workqueue.Pool.{
  Pool, enter_barrier, leave_barrier, selqueue, next_rover, Step, Reach, here, next,
}

-- How often barrier `b` is named.
abbrev pub names : ℕ → Option ℕ → ℕ
names b none = 0
names b (some c) = if b == c then 1 else 0

pub tally : ℕ → List Item → ℕ
tally b [] = 0
tally b (it ∷ rest) = names b it.barrier + tally b rest

tally-append : (b : ℕ) (xs ys : List Item) → tally b (xs ++ ys) ≡ tally b xs + tally b ys
unfolding tally
tally-append b [] ys = omega arith
tally-append b (x ∷ xs) ys = omega (arith, tally-append b xs ys)

-- The item that a thread holds until `bdec`.
abbrev pub held : Worker → List Item
held (Worker.running it) = it ∷ []
held (Worker.called it) = it ∷ []
held _ = []

-- What a station still owes a barrier.
abbrev pub owed : ℕ → Station → ℕ
owed b w = tally b (held w.worker) + tally b w.entries

Turn-owed : (b : ℕ) {w w' : Station} → Turn w w' → owed b w' ≡ owed b w
unfolding tally
Turn-owed b {w} (Turn.sleep at z e) = omega (arith, ap (λ t. tally b (held t)) at)
Turn-owed b {w} (Turn.leave at z e) = omega (arith, ap (λ t. tally b (held t)) at)
Turn-owed b {w} (Turn.wake at) = omega (arith, ap (λ t. tally b (held t)) at)
Turn-owed b {w} (Turn.busy at z) = omega (arith, ap (λ t. tally b (held t)) at)
Turn-owed b {w} (Turn.remove it rest at e) =
    omega (arith, ap (λ t. tally b (held t)) at, ap (tally b) e)
Turn-owed b {w} (Turn.call it at) = omega (arith, ap (λ t. tally b (held t)) at)
Turn-owed b {w} (Turn.count it at) = omega (arith, ap (λ t. tally b (held t)) at)
Turn-owed b {w} (Turn.unlock at e) = omega (arith, ap (λ t. tally b (held t)) at)

insert_tail-owed :
    (b : ℕ) (it : Item) (w : Station) → owed b (insert_tail it w) ≡ owed b w + names b it.barrier
unfolding tally insert_tail
insert_tail-owed b it w = omega (arith, tally-append b w.entries (it ∷ []))

pub record Inv (n : ℕ) (s : Pool) : Type 0 where
  pub consistent : (i : ℕ) → IsConsistent (s.stations i)
  pub balanced : (b : ℕ) → s.counts b ≡ tally b s.entering + sum_upto (λ i. owed b (s.stations i)) n

-- One station changes.
owed-change :
    (b n i : ℕ) (stations : ℕ → Station) (w : Station)
    → i < n
    → sum_upto (λ j. owed b (change stations i w j)) n + owed b (stations i)
      ≡ sum_upto (λ j. owed b (stations j)) n + owed b w
owed-change b n i stations w lt = omega (
  arith,
  sum_one (λ j. owed b (change stations i w j)) (λ j. owed b (stations j)) i
      (λ j off. ap (owed b) (change-other stations i w j off)) n lt,
  ap (owed b) (change-same stations i w),
)

enter_barrier-counts :
    (o : Option ℕ) (counts : ℕ → ℕ) (b : ℕ) → enter_barrier o counts b ≡ counts b + names b o
unfolding binc
enter_barrier-counts none counts b = omega arith
enter_barrier-counts (some c) counts b = ground arith

leave_barrier-counts :
    (o : Option ℕ) (counts : ℕ → ℕ) (b : ℕ)
    → names b o ≤ counts b
    → leave_barrier o counts b + names b o ≡ counts b
unfolding bdec
leave_barrier-counts none counts b le = omega arith
leave_barrier-counts (some c) counts b le = ground arith

either : (P : Station → Type 0) (c : Bool) {x y : Station} → P x → P y → P (if c then x else y)
either P true p q = p
either P false p q = q

change-IsConsistent :
    (i : ℕ) (stations : ℕ → Station) (w : Station)
    → ((j : ℕ) → IsConsistent (stations j))
    → IsConsistent w
    → (j : ℕ) → IsConsistent (change stations i w j)
change-IsConsistent i stations w all one j = either IsConsistent (i == j) one (all j)

selqueue-lt : (n rover key : ℕ) → 0 < n → selqueue n rover key < n
unfolding selqueue
selqueue-lt n rover key pos = ground arith

holds :
    (b : ℕ) (it : Item) (w : Station)
    → w.worker ≡ Worker.called it
    → owed b w ≡ names b it.barrier + tally b w.entries
unfolding tally
holds b it w at = omega (arith, ap (λ t. tally b (held t)) at)

freed-owed :
    (b : ℕ) (it : Item) (w : Station)
    → owed b (record w { worker = Worker.freed it }) ≡ tally b w.entries
unfolding tally
freed-owed b it w = omega arith

changed-Inv :
    (n : ℕ) (s : Pool) (i : ℕ) (w : Station) (counts : ℕ → ℕ) (entering : List Item) (rover : ℕ)
    → i < n
    → IsConsistent w
    → Inv n s
    → ((b : ℕ)
        → counts b + (owed b (s.stations i) + tally b s.entering)
          ≡ s.counts b + (owed b w + tally b entering))
    → Inv n (record {
      stations = change s.stations i w;
      rover = rover;
      counts = counts;
      entering = entering;
    })
changed-Inv n s i w counts entering rover lt one v moved = record {
  consistent = change-IsConsistent i s.stations w v.consistent one;
  balanced = λ b. omega (arith, v.balanced b, moved b, owed-change b n i s.stations w lt);
}

Step-Inv : (n : ℕ) {s t : Pool} → 0 < n → Step n s t → Inv n s → Inv n t
unfolding tally
Step-Inv n {s} pos (Step.enter it) v = record {
  consistent = v.consistent;
  balanced = λ b. omega (arith, v.balanced b, enter_barrier-counts it.barrier s.counts b);
}
Step-Inv n {s} pos (Step.insert before it after e small) v =
    changed-Inv n s (selqueue n s.rover it.key)
      (insert_tail it (s.stations (selqueue n s.rover it.key))) s.counts (before ++ after)
      (next_rover s.rover it.key) (selqueue-lt n s.rover it.key pos)
      (insert_tail-IsConsistent it (s.stations (selqueue n s.rover it.key))
        (v.consistent (selqueue n s.rover it.key)))
      v
      (λ b. omega (
        arith,
        insert_tail-owed b it (s.stations (selqueue n s.rover it.key)),
        ap (tally b) e,
        tally-append b before (it ∷ after),
        tally-append b before after,
      ))
Step-Inv n {s} pos (Step.turn i {w} lt step) v =
    changed-Inv n s i w s.counts s.entering s.rover lt (Turn-IsConsistent step (v.consistent i)) v
      (λ b. omega (arith, Turn-owed b step))
Step-Inv n {s} pos (Step.release i it lt at) v =
    changed-Inv n s i (record (s.stations i) { worker = Worker.freed it })
      (leave_barrier it.barrier s.counts) s.entering s.rover lt
      (freed-IsConsistent it (s.stations i) at (v.consistent i)) v
      (λ b. omega (
        arith,
        leave_barrier-counts it.barrier s.counts b (
            omega (
              arith,
              v.balanced b,
              holds b it (s.stations i) at,
              term-le-sum (λ j. owed b (s.stations j)) n i lt,
              holds b it (s.stations i) at,
            )),
        holds b it (s.stations i) at,
        freed-owed b it (s.stations i),
      ))
Step-Inv n {s} pos (Step.shut i lt) v =
    changed-Inv n s i (record (s.stations i) { should_exit = true }) s.counts s.entering s.rover lt
      (record {
        counted = (v.consistent i).counted;
        ordered = (v.consistent i).ordered;
        tallied = (v.consistent i).tallied;
      })
      v (λ b. omega arith)

Reach-Inv : (n : ℕ) {s : Pool} → 0 < n → Reach n s → Inv n s
unfolding tally
Reach-Inv n pos here = record {
  consistent = λ i. empty_station-IsConsistent;
  balanced = λ b. omega (arith, sum_zero n);
}
Reach-Inv n pos (next r step) = Step-Inv n pos step (Reach-Inv n pos r)

-- In every reachable state of a pool with at least one queue, and for each queue: `wq_items` is the
-- length of the list; the items that were put in the queue are, in this order, those whose callback
-- has run, the one that was taken off and is about to run, and those still in the list, so each runs
-- once and in the order of insertion; and `wq_processed` counts the runs, less the one under way.
pub in_order_once : (n : ℕ) (s : Pool) → 0 < n → Reach n s → (i : ℕ) → IsConsistent (s.stations i)
in_order_once n s pos r = (Reach-Inv n pos r).consistent

zero_count : (c : ℕ) → bwait_returns c ≡ true → c ≡ 0
zero_count c done = ground arith

names_own : (b : ℕ) (o : Option ℕ) → o ≡ some b → names b o ≡ 1
names_own b o named = ground (arith, ap (names b) named)

-- In every reachable state of a pool with at least one queue, when `bwait` on a barrier may return,
-- no item of the barrier is on its way into a queue, in one of the `n` queues, or in the hands of
-- a thread that has not called `bdec` for it.
pub barrier_safe :
    (n : ℕ) (s : Pool) (b : ℕ)
    → 0 < n
    → Reach n s
    → bwait_returns (s.counts b) ≡ true
    → (tally b s.entering ≡ 0) × ((i : ℕ) → i < n → owed b (s.stations i) ≡ 0)
barrier_safe n s b pos r done =
    let balance = (Reach-Inv n pos r).balanced b in
    let none_left = zero_count (s.counts b) done in
    (
      omega (arith, balance, none_left),
      λ i lt. omega (arith, balance, none_left, term-le-sum (λ j. owed b (s.stations j)) n i lt),
    )

-- In every reachable state of a pool with at least one queue, a thread that is about to call `bdec`
-- for an item's barrier finds its count positive, so that the count never goes below 0.
pub bdec_positive :
    (n : ℕ) (s : Pool) (b i : ℕ) (it : Item)
    → 0 < n
    → Reach n s
    → i < n
    → (s.stations i).worker ≡ Worker.called it
    → it.barrier ≡ some b
    → 0 < s.counts b
bdec_positive n s b i it pos r lt at named = omega (
  arith,
  (Reach-Inv n pos r).balanced b,
  holds b it (s.stations i) at,
  names_own b it.barrier named,
  term-le-sum (λ j. owed b (s.stations j)) n i lt,
)
