-- ===== src/Workqueue/Station.antt =====
-- A `struct workqueue` and its thread.
use xtest.Base.{
  ℕ, ◌+◌, ◌-◌, ◌≡◌, ◌≢◌, refl, sym, ap, ◌∙◌, List, [], ◌∷◌, ◌++◌, Option, Bool, true, false, length,
  length-append, arith,
}
use mathlib.Core.List.{append_assoc}
use mathlib.Core.Path.{ap₂}

-- `struct workqueue_item`; the callback, its argument and the barrier are names.
pub record Item : Type 0 where
  pub cb : ℕ
  pub priv : ℕ
  pub barrier : Option ℕ
  pub key : ℕ

-- Where the thread stands: at the top of its loop, in `pthread_cond_wait`, in `process_workqueue`
-- with the lock, before the callback, after it, after `bdec` and `free`, and past its end.
pub data Worker : Type 0 where
  top : Worker
  waiting : Worker
  draining : Worker
  running : Item → Worker
  called : Item → Worker
  freed : Item → Worker
  exited : Worker

pub record Station : Type 0 where
  pub entries : List Item
  pub items : ℕ
  pub should_exit : Bool
  pub processed : ℕ
  pub worker : Worker
  pub inserted : List Item  -- all that `add_workqueue_item` put here
  pub history : List Item  -- all whose callback ran

abbrev pub empty_station : Station
empty_station = record {
  entries = [];
  items = 0;
  should_exit = false;
  processed = 0;
  worker = top;
  inserted = [];
  history = [];
}

-- `TAILQ_INSERT_TAIL` and `wq_items++`
unfoldable pub insert_tail : Item → Station → Station
insert_tail it w = record w {
  entries = w.entries ++ it ∷ [];
  items = w.items + 1;
  inserted = w.inserted ++ it ∷ [];
}

-- The thread's steps, `bdec` apart. A wait may end with no signal.
pub data Turn (w : Station) : Station → Type 0 where
  sleep :
      w.worker ≡ top → w.items ≡ 0 → w.should_exit ≡ false → Turn w (record w { worker = waiting })
  leave :
      w.worker ≡ top → w.items ≡ 0 → w.should_exit ≡ true → Turn w (record w { worker = exited })
  wake : w.worker ≡ waiting → Turn w (record w { worker = draining })
  busy : w.worker ≡ top → w.items ≢ 0 → Turn w (record w { worker = draining })
  remove :
      (it : Item) (rest : List Item)
      → w.worker ≡ draining
      → w.entries ≡ it ∷ rest
      → Turn w (record w { entries = rest; items = w.items - 1; worker = running it })
  call :
      (it : Item)
      → w.worker ≡ running it
      → Turn w (record w { worker = called it; history = w.history ++ it ∷ [] })
  count :
      (it : Item)
      → w.worker ≡ freed it
      → Turn w (record w { processed = w.processed + 1; worker = draining })
  unlock : w.worker ≡ draining → w.entries ≡ [] → Turn w (record w { worker = top })

-- An item that was taken off the queue and not run yet.
abbrev pub in_hand : Worker → List Item
in_hand (running it) = it ∷ []
in_hand _ = []

-- One for an item that was run and is not yet counted.
abbrev pub uncounted : Worker → ℕ
uncounted (called it) = 1
uncounted (freed it) = 1
uncounted _ = 0

pub record IsConsistent (w : Station) : Type 0 where
  pub counted : w.items ≡ length w.entries
  pub ordered : w.inserted ≡ w.history ++ (in_hand w.worker ++ w.entries)
  pub tallied : w.processed + uncounted w.worker ≡ length w.history

pub empty_station-IsConsistent : IsConsistent empty_station
empty_station-IsConsistent = record { counted = refl; ordered = refl; tallied = omega arith }

pub insert_tail-IsConsistent :
    (it : Item) (w : Station) → IsConsistent w → IsConsistent (insert_tail it w)
unfolding insert_tail
insert_tail-IsConsistent it w v = record {
  counted = omega (arith, v.counted, length-append w.entries (it ∷ []));
  ordered =
      ap (λ t. t ++ it ∷ []) v.ordered
      ∙ append_assoc w.history (in_hand w.worker ++ w.entries) (it ∷ [])
      ∙ ap (λ t. w.history ++ t) (append_assoc (in_hand w.worker) w.entries (it ∷ []));
  tallied = v.tallied;
}

moves_on :
    (w : Station) (q : Worker)
    → in_hand w.worker ≡ in_hand q
    → uncounted w.worker ≡ uncounted q
    → IsConsistent w
    → IsConsistent (record w { worker = q })
moves_on w q same same' v = record {
  counted = v.counted;
  ordered = v.ordered ∙ ap (λ t. w.history ++ (t ++ w.entries)) same;
  tallied = omega (arith, v.tallied);
}

pub Turn-IsConsistent : {w w' : Station} → Turn w w' → IsConsistent w → IsConsistent w'
Turn-IsConsistent {w} (Turn.sleep at z e) v = moves_on w waiting (ap in_hand at) (ap uncounted at) v
Turn-IsConsistent {w} (Turn.leave at z e) v = moves_on w exited (ap in_hand at) (ap uncounted at) v
Turn-IsConsistent {w} (Turn.wake at) v = moves_on w draining (ap in_hand at) (ap uncounted at) v
Turn-IsConsistent {w} (Turn.busy at z) v = moves_on w draining (ap in_hand at) (ap uncounted at) v
Turn-IsConsistent {w} (Turn.remove it rest at e) v = record {
  counted = omega (arith, v.counted, ap length e);
  ordered = v.ordered ∙ ap₂ (λ t u. w.history ++ (t ++ u)) (ap in_hand at) e;
  tallied = omega (arith, v.tallied, ap uncounted at);
}
Turn-IsConsistent {w} (Turn.call it at) v = record {
  counted = v.counted;
  ordered =
      v.ordered
      ∙ ap (λ t. w.history ++ (t ++ w.entries)) (ap in_hand at)
      ∙ sym (append_assoc w.history (it ∷ []) w.entries);
  tallied = omega (arith, v.tallied, ap uncounted at, length-append w.history (it ∷ []));
}
Turn-IsConsistent {w} (Turn.count it at) v = record {
  counted = v.counted;
  ordered = v.ordered ∙ ap (λ t. w.history ++ (t ++ w.entries)) (ap in_hand at);
  tallied = omega (arith, v.tallied, ap uncounted at);
}
Turn-IsConsistent {w} (Turn.unlock at e) v = moves_on w top (ap in_hand at) (ap uncounted at) v

-- `bdec` and `free` come between the callback and the count.
pub freed-IsConsistent :
    (it : Item) (w : Station)
    → w.worker ≡ called it
    → IsConsistent w
    → IsConsistent (record w { worker = freed it })
freed-IsConsistent it w at v = moves_on w (freed it) (ap in_hand at) (ap uncounted at) v
