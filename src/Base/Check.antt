-- ===== src/Base/Check.antt =====
-- A Boolean test that passes at every number under a bound, by running it.
use Prim.Native.Nat.{ℕ, zero, suc, ◌<◌}
use mathlib.Core.Path.{◌≡◌}
use mathlib.Core.Bool.{Bool, true, ◌&&◌}
use native.Mathlib.Omega.{arith}

module _ (test : ℕ → Bool) where
  unfoldable pub passes_under : ℕ → Bool
  passes_under zero = true
  passes_under (suc bound) = passes_under bound && test bound

  pub passes_under-lt : (bound k : ℕ) → k < bound → passes_under bound ≡ true → test k ≡ true
  unfolding passes_under
  passes_under-lt zero k lt all = elim lt [ ]
  passes_under-lt (suc bound) k lt all = ground (arith, passes_under-lt bound k)
