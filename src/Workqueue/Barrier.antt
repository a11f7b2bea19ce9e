-- ===== src/Workqueue/Barrier.antt =====
-- barrier.c: the count and what each call does to it under the mutex.
use xtest.Base.{ℕ, ◌+◌, ◌-◌, ◌≡◌, Bool, true, false, ltb, ◌==◌, if◌then◌else◌, not, arith}

unfoldable pub binc : ℕ → ℕ
binc b_count = b_count + 1

-- The new count, the result, and whether the condition is signalled. The count is positive at
-- each call of the pool (`Safety`).
pub record Decrement : Type 0 where
  pub b_count : ℕ
  pub ret : ℕ
  pub signalled : Bool

unfoldable pub bdec : ℕ → Decrement
bdec b_count =
    let now = b_count - 1 in
    if now == 0
    then record { b_count = now; ret = now; signalled = true }
    else record { b_count = now; ret = 0; signalled = false }

-- The test on which `bwait` returns.
abbrev pub bwait_returns : ℕ → Bool
bwait_returns b_count = not (ltb 0 b_count)

-- `bdec` undoes `binc`, signals exactly when the count reaches 0, and returns 0 in either case.
pub bdec-binc :
    (c : ℕ)
    → ((bdec (binc c)).b_count ≡ c)
      × ((bdec (binc c)).signalled ≡ (c == 0))
      × ((bdec (binc c)).ret ≡ 0)
unfolding bdec binc
bdec-binc c = ground arith
