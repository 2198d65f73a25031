-- ===== src/Common/Products.antt =====
-- Products in inequalities.
use Prim.Native.Nat.{ℕ, ◌*◌, ◌≤◌}
use native.Mathlib.Omega.{arith}

pub scaled-le : (a b c : ℕ) → a ≤ b → a * c ≤ b * c
scaled-le a b c le = grind arith
