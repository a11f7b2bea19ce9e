-- ===== src/Pwc/Ring/Order.antt =====
-- The reader is one slot behind the writer: `push` fills slot `head + 1` and the reader starts at
-- slot 0.
use xtest.Base.{
  ℕ, suc, ◌+◌, ◌-◌, ◌%◌, ◌≤◌, ◌<◌, ◌≡◌, refl, sym, ap, ◌∙◌, List, [], ◌∷◌, ◌++◌, map, arith, false,
  length, take, get_or, length-append, take-append_le, take-suc, get_or-append_lt,
  get_or-append_self,
}
use mathlib.Core.List.{map-append}
use mathlib.Core.Path.{ap₂}
use xtest.Base.{dec_lt}
use xtest.Pwc.Ring.{
  Ring, fifo_size, fresh, store, publish, is_empty, front, take_front, acknowledge,
}

-- Slot `j` of the unending array that the ring stands for.
abbrev pub lane {ℓ} : {A : Type ℓ} → A → Ring A → List A
lane zeroed r = zeroed ∷ r.published

module _ {ℓ} {A : Type ℓ} (zeroed : A) (g : A → A) where
  pub record InOrder (r : Ring A) : Type ℓ where
    pub counted : r.head ≡ length r.published
    pub behind : r.acked ≤ r.tail
    pub ahead : r.tail ≤ r.head
    pub room : r.head ≤ r.acked + (fifo_size - 1)
    pub held :
        (j : ℕ)
        → r.tail ≤ j
        → j ≤ r.head
        → r.slots (j % fifo_size) ≡ get_or (lane zeroed r) j zeroed
    pub history : r.taken ≡ map g (take r.tail (lane zeroed r))

  pub fresh-InOrder : InOrder (fresh zeroed)
  fresh-InOrder = record {
    counted = refl;
    behind = omega arith;
    ahead = omega arith;
    room = omega arith;
    held = λ j lo hi. let e : j ≡ 0 = omega arith in rw e refl;
    history = refl;
  }

  pub store-InOrder :
      (f : A) (r : Ring A) → InOrder r → r.head < r.acked + (fifo_size - 1) → InOrder (store f r)
  unfolding store
  store-InOrder f r v room = record {
    counted = v.counted;
    behind = v.behind;
    ahead = v.ahead;
    room = v.room;
    held = λ j lo hi. ground (arith, v.behind, v.held j lo hi);
    history = v.history;
  }

  pub publish-InOrder :
      (f : A) (r : Ring A)
      → InOrder r
      → r.head < r.acked + (fifo_size - 1)
      → r.slots ((r.head + 1) % fifo_size) ≡ f
      → InOrder (publish f r)
  unfolding publish
  publish-InOrder f r v room stored = record {
    counted = omega (arith, v.counted, length-append r.published (f ∷ []));
    behind = v.behind;
    ahead = omega (arith, v.ahead);
    room = omega arith;
    held = λ j lo hi. elim (dec_lt r.head j) [
      | yes new ↦
          let e : j ≡ suc r.head = omega arith in
          let written : r.slots (suc r.head % fifo_size) ≡ f =
            ap (λ t. r.slots (t % fifo_size)) (omega arith) ∙ stored in
          let read : get_or (r.published ++ f ∷ []) r.head zeroed ≡ f =
            ap (λ t. get_or (r.published ++ f ∷ []) t zeroed) v.counted
            ∙ get_or-append_self r.published f zeroed in
          rw e (written ∙ sym read)
      | no old ↦
          v.held j lo (omega arith)
          ∙ sym (get_or-append_lt (lane zeroed r) (f ∷ []) j zeroed (omega (arith, v.counted)))
    ];
    history =
        v.history
        ∙ ap (map g) (
            sym
              (take-append_le r.tail (lane zeroed r) (f ∷ []) (omega (arith, v.ahead, v.counted))));
  }

  taken_suc :
      (r : Ring A)
      → InOrder r
      → r.tail < r.head
      → r.taken ++ g (front r) ∷ [] ≡ map g (take (r.tail + 1) (lane zeroed r))
  taken_suc r v more =
      let bump : r.tail + 1 ≡ suc r.tail = omega arith in
      let next : take (r.tail + 1) (lane zeroed r)
          ≡ take r.tail (lane zeroed r) ++ get_or (lane zeroed r) r.tail zeroed ∷ [] =
        ap (λ t. take t (lane zeroed r)) bump
        ∙ take-suc r.tail (lane zeroed r) zeroed (omega (arith, v.counted)) in
      let item : front r ≡ get_or (lane zeroed r) r.tail zeroed =
        v.held r.tail (omega arith) (omega arith) in
      ap₂ (λ t u. t ++ g u ∷ []) v.history item
      ∙ sym (map-append g (take r.tail (lane zeroed r)) (get_or (lane zeroed r) r.tail zeroed ∷ []))
      ∙ ap (map g) (sym next)

  pub take_front-InOrder : (r : Ring A) → InOrder r → is_empty r ≡ false → InOrder (take_front g r)
  unfolding take_front
  take_front-InOrder r v more = record {
    counted = v.counted;
    behind = omega (arith, v.behind);
    ahead = ground (arith, v.ahead);
    room = v.room;
    held = λ j lo hi. ground (arith, v.behind, v.room, v.held j (omega arith) hi);
    history = taken_suc r v (ground (arith, v.ahead));
  }

  pub acknowledge-InOrder : (r : Ring A) → InOrder r → InOrder (acknowledge r)
  unfolding acknowledge
  acknowledge-InOrder r v = record {
    counted = v.counted;
    behind = omega arith;
    ahead = v.ahead;
    room = omega (arith, v.behind, v.room);
    held = v.held;
    history = v.history;
  }
