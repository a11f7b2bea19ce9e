-- ===== src/Pwc/System/Ready.antt =====
-- The invariant of the two threads, and what it takes for each side of a ring.
use xtest.Base.{◌+◌, ◌-◌, ◌%◌, ◌<◌, ◌≡◌, refl, List, [], ◌∷◌, ◌++◌, arith, false}
use xtest.Pwc.Lines.{File, blank}
use xtest.Pwc.Ring.{Ring, fifo_size, store, is_empty, take_front, acknowledge}
use xtest.Pwc.Ring.Order.{InOrder, store-InOrder}
use xtest.Pwc.System.{Push, Main, Io, System, count, keep, PushStep}

-- What a writer inside `push` may rely on.
abbrev pub Ready : Ring File → Push → Type 0
Ready r (Push.spinning f) = Unit
Ready r (Push.admitted f) = r.head < r.acked + (fifo_size - 1)
Ready r (Push.stored f) =
    (r.head < r.acked + (fifo_size - 1)) × (r.slots ((r.head + 1) % fifo_size) ≡ f)

abbrev pub MainReady : Ring File → Main → Type 0
MainReady r (Main.pushing p) = Ready r p
MainReady r _ = Unit

abbrev pub IoReady : Ring File → Io → Type 0
IoReady r (Io.counting b p) = Ready r p
IoReady r _ = Unit

abbrev pub item : Push → File
item (Push.spinning f) = f
item (Push.admitted f) = f
item (Push.stored f) = f

-- The counted file that is not yet in the second ring.
abbrev pub in_hand : Io → List File
in_hand (Io.counting b p) = item p ∷ []
in_hand _ = []

pub record Inv (s : System) : Type 0 where
  pub first : InOrder blank count s.work
  pub second : InOrder blank keep s.finished
  pub writer : MainReady s.work s.main
  pub counter : IoReady s.finished s.io
  pub handed : s.work.taken ≡ s.finished.published ++ in_hand s.io

-- A step of `push` keeps the order of its ring and leaves the reader's side alone.
pub record Pushed (g : File → File) (r : Ring File) (p : Push) (r' : Ring File) (q : Push)
    : Type 0 where
  pub order : InOrder blank g r'
  pub ready : Ready r' q
  pub same_item : item q ≡ item p
  pub same_published : r'.published ≡ r.published
  pub same_taken : r'.taken ≡ r.taken

pub PushStep-Pushed :
    (g : File → File) {r r' : Ring File} {p q : Push}
    → InOrder blank g r
    → Ready r p
    → PushStep r p r' q
    → Pushed g r p r' q
unfolding store
PushStep-Pushed g v ok (PushStep.spin f h) = record {
  order = v;
  ready = tt;
  same_item = refl;
  same_published = refl;
  same_taken = refl;
}
PushStep-Pushed g v ok (PushStep.admit f h) = record {
  order = v;
  ready = ground (arith, v.room, v.behind, v.ahead);
  same_item = refl;
  same_published = refl;
  same_taken = refl;
}
PushStep-Pushed g {r} v ok (PushStep.fill f) = record {
  order = store-InOrder blank g f r v ok;
  ready = (ok, ground arith);
  same_item = refl;
  same_published = refl;
  same_taken = refl;
}

-- The reader's moves keep what a writer relies on.
Ready-take_front :
    (g h : File → File) (r : Ring File) (p : Push)
    → InOrder blank h r
    → is_empty r ≡ false
    → Ready r p
    → Ready (take_front g r) p
unfolding take_front
Ready-take_front g h r (Push.spinning f) v more ok = tt
Ready-take_front g h r (Push.admitted f) v more ok = ok
Ready-take_front g h r (Push.stored f) v more ok = (ok.0, ground (arith, v.behind, v.ahead, v.room))

Ready-acknowledge :
    (h : File → File) (r : Ring File) (p : Push)
    → InOrder blank h r
    → Ready r p
    → Ready (acknowledge r) p
unfolding acknowledge
Ready-acknowledge h r (Push.spinning f) v ok = tt
Ready-acknowledge h r (Push.admitted f) v ok = omega (arith, v.behind)
Ready-acknowledge h r (Push.stored f) v ok = (omega (arith, v.behind), ok.1)

pub MainReady-take_front :
    (r : Ring File) (m : Main)
    → InOrder blank count r
    → is_empty r ≡ false
    → MainReady r m
    → MainReady (take_front count r) m
MainReady-take_front r (Main.pushing p) v more ok = Ready-take_front count count r p v more ok
MainReady-take_front r _ v more ok = tt

pub MainReady-acknowledge :
    (r : Ring File) (m : Main) → InOrder blank count r → MainReady r m → MainReady (acknowledge r) m
MainReady-acknowledge r (Main.pushing p) v ok = Ready-acknowledge count r p v ok
MainReady-acknowledge r _ v ok = tt

pub IoReady-take_front :
    (r : Ring File) (i : Io)
    → InOrder blank keep r
    → is_empty r ≡ false
    → IoReady r i
    → IoReady (take_front keep r) i
IoReady-take_front r (Io.counting b p) v more ok = Ready-take_front keep keep r p v more ok
IoReady-take_front r _ v more ok = tt

pub IoReady-acknowledge :
    (r : Ring File) (i : Io) → InOrder blank keep r → IoReady r i → IoReady (acknowledge r) i
IoReady-acknowledge r (Io.counting b p) v ok = Ready-acknowledge keep r p v ok
IoReady-acknowledge r _ v ok = tt
