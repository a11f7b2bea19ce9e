-- ===== src/Gcd.antt =====
-- 443.c: a slow and a fast gcd, and the sequence g(4) = 13, g(n) = g(n - 1) + gcd(n, g(n - 1)), plain
-- and with a one-entry memo. `print` is 0 throughout.
mod Correct
pub mod Sequence
pub mod Tests
use xtest.Base.{
  ℕ, zero, suc, ◌+◌, ◌-◌, ◌%◌, ◌^◌, ◌≤◌, ◌<◌, ◌≡◌, min, Bool, ◌==◌, ◌&&◌, if◌then◌else◌, Outcome,
  done, timeout, ◌>>=◌, u64,
}

-- The loop from `i` down to 1.
unfoldable pub gcd_loop : ℕ → ℕ → ℕ → ℕ
gcd_loop x y zero = 1
gcd_loop x y (suc i) = if (x % suc i == 0) && (y % suc i == 0) then suc i else gcd_loop x y i

unfoldable pub gcd : ℕ → ℕ → ℕ
gcd x y = gcd_loop x y (min x y)

unfoldable pub gcdfast_loop : ℕ → ℕ → ℕ → Outcome ℕ
gcdfast_loop zero x y = timeout
gcdfast_loop (suc fuel) x y =
    let rest = gcdfast_loop fuel y (x % y) in if y == 0 then done x else rest

unfoldable pub gcdfast : ℕ → ℕ → Outcome ℕ
gcdfast x y = gcdfast_loop (suc y) x y

unfoldable pub g : ℕ → ℕ → Outcome ℕ
g zero n = timeout
g (suc fuel) n =
    let rest = (do
      first ← g fuel (u64 (n + 2 ^ 64 - 1))
      second ← g fuel (u64 (n + 2 ^ 64 - 1))
      d ← gcdfast n second
      done (u64 (first + d))) in
    if n == 4 then done 13 else rest

-- `gtabi[0]` and `gtab[0]`
pub record Memo : Type 0 where
  pub gtabi : ℕ
  pub gtab : ℕ

abbrev pub no_memo : Memo
no_memo = record { gtabi = 0; gtab = 0 }

-- The two calls are made from left to right; C leaves their order open.
unfoldable pub gfast : ℕ → Memo → ℕ → Outcome (ℕ × Memo)
gfast zero m n = timeout
gfast (suc fuel) m n =
    let rest = (do
      first ← gfast fuel m (u64 (n + 2 ^ 64 - 1))
      second ← gfast fuel first.1 (u64 (n + 2 ^ 64 - 1))
      d ← gcdfast n second.0
      let v = u64 (first.0 + d)
      done (v, record { gtabi = n; gtab = v })) in
    if n == 4 then done (13, m) else if m.gtabi == n then done (m.gtab, m) else rest
