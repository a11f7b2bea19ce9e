-- ===== src/Workqueue/Routing.antt =====
-- Which queue an item goes to.
use xtest.Base.{
  ℕ, ◌%◌, ◌≤◌, ◌≡◌, refl, ap, ◌∙◌, List, [], ◌∷◌, ◌++◌, Option, none, some, Bool, true, ◌==◌, ◌&&◌,
  ◌||◌, arith, ℕ_discrete,
}
use xtest.Base.Family.{change, change-same, change-other}
use xtest.Workqueue.Station.{Item, Worker, Station, insert_tail, Turn}
use xtest.Workqueue.Pool.{Pool, nproc_of, sched_workqueues, selqueue, Step, Reach, here, next}

abbrev pub belongs : ℕ → ℕ → Item → Bool
belongs n i it = (it.key == 0) || (it.key % n == i)

pub routed : ℕ → ℕ → List Item → Bool
routed n i [] = true
routed n i (it ∷ rest) = belongs n i it && routed n i rest

routed-snoc :
    (n i : ℕ) (xs : List Item) (it : Item)
    → routed n i xs ≡ true
    → belongs n i it ≡ true
    → routed n i (xs ++ it ∷ []) ≡ true
unfolding routed
routed-snoc n i [] it h k = ground (arith, k)
routed-snoc n i (x ∷ xs) it h k = ground (arith, routed-snoc n i xs it, k)

Turn-inserted : {w w' : Station} → Turn w w' → w'.inserted ≡ w.inserted
Turn-inserted (Turn.sleep at z e) = refl
Turn-inserted (Turn.leave at z e) = refl
Turn-inserted (Turn.wake at) = refl
Turn-inserted (Turn.busy at z) = refl
Turn-inserted (Turn.remove it rest at e) = refl
Turn-inserted (Turn.call it at) = refl
Turn-inserted (Turn.count it at) = refl
Turn-inserted (Turn.unlock at e) = refl

change-routed :
    (n k : ℕ) (stations : ℕ → Station) (w : Station)
    → ((i : ℕ) → routed n i (stations i).inserted ≡ true)
    → routed n k w.inserted ≡ true
    → (i : ℕ) → routed n i (change stations k w i).inserted ≡ true
change-routed n k stations w v h i = elim (ℕ_discrete i k) [
  | yes same ↦ rw same (ap (λ t. routed n k t.inserted) (change-same stations k w) ∙ h)
  | no off ↦ ap (λ t. routed n i t.inserted) (change-other stations k w i off) ∙ v i
]

selqueue-belongs : (n rover : ℕ) (it : Item) → belongs n (selqueue n rover it.key) it ≡ true
unfolding selqueue
selqueue-belongs n rover it = ground arith

Step-routed :
    (n : ℕ) {s t : Pool}
    → Step n s t
    → ((i : ℕ) → routed n i (s.stations i).inserted ≡ true)
    → (i : ℕ) → routed n i (t.stations i).inserted ≡ true
unfolding insert_tail
Step-routed n {s} (Step.enter it) v = v
Step-routed n {s} (Step.insert before it after e small) v =
    let k = selqueue n s.rover it.key in
    change-routed n k s.stations (insert_tail it (s.stations k)) v
      (routed-snoc n k (s.stations k).inserted it (v k) (selqueue-belongs n s.rover it))
Step-routed n {s} (Step.turn k {w} lt step) v =
    change-routed n k s.stations w v (ap (routed n k) (Turn-inserted step) ∙ v k)
Step-routed n {s} (Step.release k it lt at) v =
    change-routed n k s.stations (record (s.stations k) { worker = Worker.freed it }) v (v k)
Step-routed n {s} (Step.shut k lt) v =
    change-routed n k s.stations (record (s.stations k) { should_exit = true }) v (v k)

-- In every reachable state, each item with a nonzero key that was ever put in a queue was put in
-- the queue numbered by the key modulo the number of queues; with `in_order_once`, items with one
-- key run in the order in which they were put in.
pub key_decides_queue :
    (n : ℕ) (s : Pool) → Reach n s → (i : ℕ) → routed n i (s.stations i).inserted ≡ true
unfolding routed
key_decides_queue n s here i = refl
key_decides_queue n s (next r step) i = Step-routed n step (key_decides_queue n _ r) i

-- The number of queues is between 1 and 4, whatever `NUMPROC` holds.
pub nproc_of-bounds : (o : Option ℕ) → (1 ≤ nproc_of o) × (nproc_of o ≤ sched_workqueues)
unfolding nproc_of
nproc_of-bounds none = (omega arith, omega arith)
nproc_of-bounds (some i) = (ground arith, ground arith)
