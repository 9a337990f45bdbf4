-- ===== src/Prelude/Float.antt =====
-- Python's floats: the type and the operations that the code uses. Nothing is assumed of them, so
-- what is proved holds for NaN, for rounding and for every other value.
use Prim.Native.Nat.{ℕ}
use mathlib.Core.Bool.{Bool}
use mathlib.Core.List.{List}
use mathlib.Core.Option.{Option}
use ai_decision_firewall.Prelude.Tests.{if◌then◌else◌}

-- A signed integer; `negsuc n` is -(n + 1).
pub data ℤ : Type 0 where
  pos : ℕ → ℤ
  negsuc : ℕ → ℤ

pub record FloatOps (F : Type 0) : Type 0 where
  -- the literal m / 10 ^ k
  pub lit : ℕ → ℕ → F
  pub of_nat : ℕ → F
  pub le : F → F → Bool
  pub lt : F → F → Bool
  -- `==`, of which nothing is assumed either
  pub eq : F → F → Bool

-- The arithmetic of floats. `fsum` is `none` where `math.fsum` raises, and `integer_value` gives the
-- integer that a finite float is, if it is one.
pub record FloatMath (F : Type 0) : Type 0 where
  pub add : F → F → F
  pub sub : F → F → F
  pub mul : F → F → F
  pub div : F → F → F
  pub fsum : List F → Option F
  pub round6 : F → F
  pub is_finite : F → Bool
  pub integer_value : F → Option ℤ

-- `max(a, b)` and `min(a, b)`, which keep `a` unless `b` compares beyond it.
module _ {F : Type 0} ⦃o : FloatOps F⦄ where
  abbrev pub max_of : F → F → F
  max_of a b = if o.lt a b then b else a

  abbrev pub min_of : F → F → F
  min_of a b = if o.lt b a then b else a
