-- ===== src/Prelude/FixedPoint.antt =====
-- Fixed-point numbers with three decimals, in which the examples compute. A number is held with an
-- offset of a million thousandths, so that small negative differences exist.
use Prim.Native.Nat
use Prim.Native.Nat.{compare}
use mathlib.Core.Bool.{true}
use mathlib.Core.Option.{some}
use datafusion_distributed.Prelude.Tests.{ltb}
use datafusion_distributed.Prelude.Float.{Float}
use Prim.Native.Nat.{ℕ, ◌+◌, ◌-◌, ◌*◌, ◌/◌}

abbrev offset : ℕ
offset = 1000000

abbrev pub thousandths : ℕ → ℕ
thousandths n = offset + n

abbrev pub fixed_point : Float
fixed_point = record {
  F = ℕ;
  zero = offset;
  one = offset + 1000;
  of_usize = λ n. offset + 1000 * n;
  as_usize = λ x. (x - offset) / 1000;
  add = λ x y. x + y - offset;
  sub = λ x y. x + offset - y;
  mul = λ x y. offset + (x - offset) * (y - offset) / 1000;
  div = λ x y. offset + (x - offset) * 1000 / (y - offset);
  max = λ x y. Nat.max x y;
  min = λ x y. Nat.min x y;
  floor = λ x. x / 1000 * 1000;
  ceil = λ x. (x + 999) / 1000 * 1000;
  lt = λ x y. ltb x y;
  partial_cmp = λ x y. some (compare x y);
  is_finite = λ x. true;
}
