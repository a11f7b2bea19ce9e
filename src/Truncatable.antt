-- ===== src/Truncatable.antt =====
-- 387b.c: digit sums, Harshad numbers, and the search for right-truncatable ones with its memo.
pub mod Digits
pub mod Correct
pub mod Tests
use xtest.Base.{
  ℕ, zero, suc, ◌+◌, ◌-◌, ◌/◌, ◌%◌, ◌^◌, ◌≡◌, Bool, true, false, not, ◌==◌, if◌then◌else◌, List, [],
  ◌∷◌, Outcome, done, timeout, ◌>>=◌, require, u32, u64, set, replicate,
}

unfoldable pub sum_digs_loop : ℕ → ℕ → ℕ → Outcome ℕ
sum_digs_loop zero n s = timeout
sum_digs_loop (suc fuel) n s =
    let rest = sum_digs_loop fuel (n / 10) (u64 (s + n % 10)) in if n == 0 then done s else rest

-- A 64-bit number has at most 20 digits.
unfoldable pub sum_digs : ℕ → Outcome ℕ
sum_digs n = sum_digs_loop 21 n 0

unfoldable pub is_harshad : ℕ → Outcome Bool
is_harshad n = do s ← sum_digs n; require (not (s == 0)) (done (n % s == 0))

unfoldable pub truncate_loop : ℕ → ℕ → Outcome Bool
truncate_loop zero n = timeout
truncate_loop (suc fuel) n =
    let rest = (do b ← is_harshad n; if b then truncate_loop fuel (n / 10) else done false) in
    if n == 0 then done true else rest

abbrev pub memo_n : ℕ
memo_n = 32

pub record Memo : Type 0 where
  pub memo2 : List ℕ
  pub memo2_i : ℕ

-- The static variables start as zeros.
abbrev pub zeroed : Memo
zeroed = record { memo2 = replicate memo_n 0; memo2_i = 0 }

unfoldable pub madd2 : ℕ → Memo → Memo
madd2 n m = record { memo2 = set m.memo2 (m.memo2_i % memo_n) n; memo2_i = u32 (m.memo2_i + 1) }

unfoldable pub mfind2 : ℕ → List ℕ → Bool
mfind2 n [] = false
mfind2 n (x ∷ xs) = if x == n then true else mfind2 n xs

-- The second loop of the digits has the same bound as `sum_digs`.
unfoldable pub is_right_truncatable : Memo → ℕ → Outcome (Bool × Memo)
is_right_truncatable m n0 =
    let search = (do b ← truncate_loop 21 n0; done (b, if b then madd2 n0 m else m)) in
    if mfind2 n0 m.memo2 then done (true, m) else search
