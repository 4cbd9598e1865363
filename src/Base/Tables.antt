-- ===== src/Base/Tables.antt =====
-- Facts about bytes that hold by evaluation at every value below a bound.
use Prim.Native.Nat.{ℕ, zero, suc, ◌<◌}
use mathlib.Core.Path.{◌≡◌}
use mathlib.Core.Bool.{Bool, true, ◌&&◌}
use native.Mathlib.Omega.{arith}

-- The test holds at each number below the limit.
unfoldable pub passes_below : (limit : ℕ) → (test : ℕ → Bool) → Bool
passes_below zero test = true
passes_below (suc limit) test = passes_below limit test && test limit

pub passes_below_at :
    (limit : ℕ) (test : ℕ → Bool) (value : ℕ)
    → passes_below limit test ≡ true
    → value < limit
    → test value ≡ true
unfolding passes_below
passes_below_at zero test value table bound = absurd (omega arith)
passes_below_at (suc limit) test value table bound =
    ground (arith, passes_below_at limit test value)
