-- ===== src/Base/Float.antt =====
-- Python's `float` as an interface: the operations that the program uses. A theorem
-- that needs a law of them takes it as a hypothesis.
use Prim.Native.Nat.{ℕ}
use mathlib.Core.Bool.{Bool}

pub record FloatOps (F : Type 0) : Type 0 where
  pub lt : F → F → Bool
  pub eq : F → F → Bool
  pub neg : F → F
  pub add : F → F → F
  pub sub : F → F → F
  pub mul : F → F → F
  pub div : F → F → F
  -- the literal m / 10 ^ k
  pub lit : ℕ → ℕ → F
  -- `round(x, n)`
  pub round_to : F → ℕ → F
