-- ===== src/Prelude/Float.antt =====
-- The floating-point numbers of the language and the operations that the program calls on them.
-- Nothing is assumed of them: what is proved holds for every rounding.
use Prim.Native.Nat.{ℕ, Ordering}
use mathlib.Core.Bool.{Bool}
use mathlib.Core.Option.{Option}

pub record Float : Type 1 where
  pub F : Type 0
  -- the literals 0.0 and 1.0
  pub zero : F
  pub one : F
  -- `n as f64`, and `x as usize`, which saturates
  pub of_usize : ℕ → F
  pub as_usize : F → ℕ
  pub add : F → F → F
  pub sub : F → F → F
  pub mul : F → F → F
  pub div : F → F → F
  pub max : F → F → F
  pub min : F → F → F
  pub floor : F → F
  pub ceil : F → F
  -- `<`, and `partial_cmp`, which is none on a NaN
  pub lt : F → F → Bool
  pub partial_cmp : F → F → Option Ordering
  pub is_finite : F → Bool
