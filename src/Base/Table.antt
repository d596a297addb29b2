-- ===== src/Base/Table.antt =====
-- Over a small range, a Boolean property is checked at every value by evaluation.
use Prim.Native.Nat.{ℕ, zero, suc, ◌<◌}
use mathlib.Core.Path.{◌≡◌}
use mathlib.Core.Bool.{Bool, true, false}
use native.Mathlib.Omega.{arith}
use serial_dfs.Base.Tests.{if◌then◌else◌}

unfoldable pub all_below : ℕ → (ℕ → Bool) → Bool
all_below zero p = true
all_below (suc bound) p = if p bound then all_below bound p else false

pub all_below_sound :
    (bound : ℕ) (p : ℕ → Bool) (x : ℕ) → all_below bound p ≡ true → x < bound → p x ≡ true
unfolding all_below
all_below_sound zero p x all in_range = absurd (omega arith)
all_below_sound (suc bound) p x all in_range = ground (arith, all_below_sound bound p x)
