-- ===== src/Pwc/System/Invariant.antt =====
-- Every step of either thread keeps the invariant.
use xtest.Base.{◌≡◌, refl, sym, ap, ◌∙◌, [], ◌∷◌, ◌++◌, Bool, false}
use mathlib.Core.List.{append-nil}
use mathlib.Core.Path.{ap₂}
use xtest.Pwc.Lines.{blank}
use xtest.Pwc.Ring.{publish, is_empty, front, take_front, acknowledge}
use xtest.Pwc.Ring.Order.{fresh-InOrder, publish-InOrder, take_front-InOrder, acknowledge-InOrder}
use xtest.Pwc.System.{
  Push, Main, Io, System, count, keep, MainStep, IoStep, Reach, main_step, io_step, here, next,
}
use xtest.Pwc.System.Ready.{
  MainReady, IoReady, in_hand, Inv, PushStep-Pushed, MainReady-take_front, MainReady-acknowledge,
  IoReady-take_front, IoReady-acknowledge,
}

-- Steps that only move a thread on.
main_moves :
    (s : System) (x : Bool) (m : Main)
    → MainReady s.work m
    → Inv s
    → Inv (record s { should_exit = x; main = m })
main_moves s x m ok v = record {
  first = v.first;
  second = v.second;
  writer = ok;
  counter = v.counter;
  handed = v.handed;
}

io_moves :
    (s : System) (i : Io)
    → IoReady s.finished i
    → s.work.taken ≡ s.finished.published ++ in_hand i
    → Inv s
    → Inv (record s { io = i })
io_moves s i ok e v = record {
  first = v.first;
  second = v.second;
  writer = v.writer;
  counter = ok;
  handed = e;
}

-- The main thread's reader side.
print_one :
    (s : System)
    → is_empty s.finished ≡ false
    → Inv s
    → Inv (record s { finished = take_front keep s.finished })
print_one s more v = record {
  first = v.first;
  second = take_front-InOrder blank keep s.finished v.second more;
  writer = v.writer;
  counter = IoReady-take_front s.finished s.io v.second more v.counter;
  handed = unfold take_front in v.handed;
}

print_ack :
    (s : System) (m : Main)
    → MainReady s.work m
    → Inv s
    → Inv (record s { finished = acknowledge s.finished; main = m })
print_ack s m ok v = record {
  first = v.first;
  second = acknowledge-InOrder blank keep s.finished v.second;
  writer = ok;
  counter = IoReady-acknowledge s.finished s.io v.second v.counter;
  handed = unfold acknowledge in v.handed;
}

MainStep-Inv : {s t : System} {m : Main} → MainStep s m t → Inv s → MainReady s.work m → Inv t
MainStep-Inv {s} (MainStep.visit f) v w = main_moves s _ _ tt v
MainStep-Inv {s} MainStep.visit_other v w = main_moves s _ _ tt v
MainStep-Inv (MainStep.push step) v w =
    let p = PushStep-Pushed count v.first w step in
    record {
      first = p.order;
      second = v.second;
      writer = p.ready;
      counter = v.counter;
      handed = p.same_taken ∙ v.handed;
    }
MainStep-Inv {s} (MainStep.push_end f) v w = record {
  first = publish-InOrder blank count f s.work v.first w.0 w.1;
  second = v.second;
  writer = tt;
  counter = v.counter;
  handed = unfold publish in v.handed;
}
MainStep-Inv {s} (MainStep.few h) v w = main_moves s _ _ tt v
MainStep-Inv {s} (MainStep.many h) v w = main_moves s _ _ tt v
MainStep-Inv {s} (MainStep.print_item more) v w = print_one s more v
MainStep-Inv {s} (MainStep.reaped h) v w = print_ack s _ tt v
MainStep-Inv {s} MainStep.leave v w = main_moves s _ _ tt v
MainStep-Inv {s} (MainStep.join h) v w = main_moves s _ _ tt v
MainStep-Inv {s} (MainStep.print_last more) v w = print_one s more v
MainStep-Inv {s} (MainStep.leave_last h) v w = print_ack s _ tt v

-- The counting thread's reader side.
count_one :
    (s : System) (b : Bool)
    → is_empty s.work ≡ false
    → Inv s
    → s.work.taken ≡ s.finished.published ++ []
    → Inv (record s {
      work = take_front count s.work;
      io = Io.counting b (Push.spinning (count (front s.work)));
    })
count_one s b more v e = record {
  first = take_front-InOrder blank count s.work v.first more;
  second = v.second;
  writer = MainReady-take_front s.work s.main v.first more v.writer;
  counter = tt;
  handed =
      unfold take_front in
      ap (λ t. t ++ count (front s.work) ∷ []) (e ∙ append-nil s.finished.published);
}

count_ack :
    (s : System) (i : Io)
    → IoReady s.finished i
    → s.work.taken ≡ s.finished.published ++ in_hand i
    → Inv s
    → Inv (record s { work = acknowledge s.work; io = i })
count_ack s i ok e v = record {
  first = acknowledge-InOrder blank count s.work v.first;
  second = v.second;
  writer = MainReady-acknowledge s.work s.main v.first v.writer;
  counter = ok;
  handed = unfold acknowledge in e;
}

IoStep-Inv :
    {s t : System} {i : Io}
    → IoStep s i t
    → Inv s
    → IoReady s.finished i
    → s.work.taken ≡ s.finished.published ++ in_hand i
    → Inv t
IoStep-Inv {s} IoStep.poll v c e = io_moves s _ tt e v
IoStep-Inv {s} (IoStep.idle h) v c e = io_moves s _ tt e v
IoStep-Inv {s} (IoStep.enter b h) v c e = io_moves s _ tt e v
IoStep-Inv {s} (IoStep.count_item b more) v c e = count_one s b more v e
IoStep-Inv {s} (IoStep.wpush b step) v c e =
    let p = PushStep-Pushed keep v.second c step in
    record {
      first = v.first;
      second = p.order;
      writer = v.writer;
      counter = p.ready;
      handed = e ∙ ap₂ (λ t u. t ++ u ∷ []) (sym p.same_published) (sym p.same_item);
    }
IoStep-Inv {s} (IoStep.wpush_end b f) v c e = record {
  first = v.first;
  second = publish-InOrder blank keep f s.finished v.second c.0 c.1;
  writer = v.writer;
  counter = tt;
  handed = unfold publish in e ∙ sym (append-nil (s.finished.published ++ f ∷ []));
}
IoStep-Inv {s} (IoStep.empty_now b h) v c e = io_moves s _ tt e v
IoStep-Inv {s} IoStep.ack v c e = count_ack s _ tt e v
IoStep-Inv {s} IoStep.ack_exit v c e = count_ack s _ tt e v
IoStep-Inv {s} (IoStep.exit h) v c e = io_moves s _ tt e v

pub Reach-Inv : {s : System} → Reach s → Inv s
Reach-Inv here = record {
  first = fresh-InOrder blank count;
  second = fresh-InOrder blank keep;
  writer = tt;
  counter = tt;
  handed = refl;
}
Reach-Inv (next r (main_step m)) = let v = Reach-Inv r in MainStep-Inv m v v.writer
Reach-Inv (next r (io_step i)) = let v = Reach-Inv r in IoStep-Inv i v v.counter v.handed
