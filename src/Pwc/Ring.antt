-- ===== src/Pwc/Ring.antt =====
-- One FIFO of pwc.c: `push`/`wpush` on one side, the inner loop of `iothread`/`reap_done` on the
-- other. The lists of what was published and taken are not in the code.
pub mod Order
use xtest.Base.{
  ℕ, suc, ◌+◌, ◌-◌, ◌%◌, ◌^◌, ◌≤◌, ◌<◌, ◌≡◌, refl, List, [], ◌∷◌, ◌++◌, arith, ◌==◌, if◌then◌else◌,
  Bool,
}

abbrev pub fifo_size : ℕ
fifo_size = 512

pub record Ring {ℓ} (A : Type ℓ) : Type ℓ where
  pub head : ℕ  -- fifo_head_
  pub acked : ℕ  -- fifo_done_
  pub tail : ℕ  -- the reader's fifo_tail
  pub slots : ℕ → A
  pub published : List A
  pub taken : List A

module _ {ℓ} {A : Type ℓ} where
  abbrev pub update : (ℕ → A) → ℕ → A → ℕ → A
  update f i a j = if i == j then a else f j

  -- The static array is zeroed, and all three counters are 0.
  abbrev pub fresh : A → Ring A
  fresh zeroed = record {
    head = 0;
    acked = 0;
    tail = 0;
    slots = λ _. zeroed;
    published = [];
    taken = [];
  }

  -- The test on which `push` spins.
  abbrev pub is_full : Ring A → Bool
  is_full r = r.head - r.acked == fifo_size - 1

  -- `fifo_[n & (FIFO_SIZE - 1)] = f` with `n = head + 1`
  unfoldable pub store : A → Ring A → Ring A
  store f r = record r { slots = update r.slots ((r.head + 1) % fifo_size) f }

  -- `fifo_head_ = n`
  unfoldable pub publish : A → Ring A → Ring A
  publish f r = record r { head = r.head + 1; published = r.published ++ f ∷ [] }

  -- The test of the reader's loops.
  abbrev pub is_empty : Ring A → Bool
  is_empty r = r.head == r.tail

  -- `&fifo_[fifo_tail & (FIFO_SIZE - 1)]`
  abbrev pub front : Ring A → A
  front r = r.slots (r.tail % fifo_size)

  -- The reader moves on and leaves `g` of the item in its slot.
  unfoldable pub take_front : (A → A) → Ring A → Ring A
  take_front g r = record r {
    slots = update r.slots (r.tail % fifo_size) (g (front r));
    tail = r.tail + 1;
    taken = r.taken ++ g (front r) ∷ [];
  }

  -- `fifo_done_ = fifo_tail`
  unfoldable pub acknowledge : Ring A → Ring A
  acknowledge r = record r { acked = r.tail }
