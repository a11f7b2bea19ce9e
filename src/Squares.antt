-- ===== src/Squares.antt =====
-- jacobi.c: the test for squares, with its two quick refusals. 142.c and 142b.c have the same
-- functions without the second refusal.
pub mod Residues
pub mod Correct
pub mod Tests
use xtest.Base.{
  ℕ, zero, suc, ◌+◌, ◌-◌, ◌*◌, ◌/◌, ◌%◌, Bool, true, false, not, ◌&&◌, ◌||◌, ◌==◌, if◌then◌else◌,
  Outcome, done, timeout, ◌>>=◌, require, u64,
}

-- `r` is 1 or -1: whether it is -1.
abbrev pub flip : Bool → Bool → Bool
flip b r = if b then not r else r

pub record Halved : Type 0 where
  pub v : ℕ
  pub r_negative : Bool

-- `while ((v % 2) == 0)`
unfoldable pub halve_loop : ℕ → ℕ → ℕ → Bool → Outcome Halved
halve_loop zero v n r = timeout
halve_loop (suc fuel) v n r =
    let rest = halve_loop fuel (v / 2) n (flip (n % 8 == 3 || n % 8 == 5) r) in
    if v % 2 == 0 then rest else done (record { v = v; r_negative = r })

-- What `jacobi` returns.
pub data Sign : Type 0 where
  negative : Sign
  nothing : Sign
  positive : Sign

abbrev pub sign : Bool → Sign
sign true = negative
sign false = positive

-- The rest of a round of `while (v)`, where `v` is odd.
abbrev pub swap : (ℕ → ℕ → Bool → Outcome Sign) → ℕ → Halved → Outcome Sign
swap rest n h = rest (n % h.v) h.v (flip (h.v % 4 == 3 && n % 4 == 3) h.r_negative)

unfoldable pub jacobi_loop : ℕ → ℕ → ℕ → Bool → Outcome Sign
jacobi_loop zero v n r = timeout
jacobi_loop (suc fuel) v n r =
    let round = (do h ← halve_loop 65 v n r; swap (jacobi_loop fuel) n h) in
    if v == 0 then done (if n == 1 then sign r else nothing) else round

-- A remainder by `n` of 64 bits; the division by 0 is undefined.
unfoldable pub jacobi : ℕ → ℕ → ℕ → Outcome Sign
jacobi fuel v n = require (not (n == 0)) (jacobi_loop fuel (v % n) n false)

-- The last lines, once neither test refuses. `sqrt` is computed in `double`.
abbrev pub by_root : (ℕ → ℕ) → ℕ → Sign → Outcome Bool
by_root sqrt v negative = done false
by_root sqrt v _ = done (v == u64 (sqrt v * sqrt v))

unfoldable pub issquare : (ℕ → ℕ) → ℕ → Outcome Bool
issquare sqrt v =
    let by_residue = (do s ← jacobi 18 v 17; by_root sqrt v s) in
    if v % 2 == 0
    then (if not (v % 4 == 0) then done false else by_residue)
    else (if not (v % 8 == 1) then done false else by_residue)
