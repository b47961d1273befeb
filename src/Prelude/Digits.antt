-- ===== src/Prelude/Digits.antt =====
-- A number as a multiple and a remainder below it.
use native.Mathlib.Nat.{div-mul-le_self, div-add-mod', mul-le-mul_right, lt_of_mul-lt-mul_right}
use datafusion_distributed.Prelude.{
  ℕ, suc, ◌+◌, ◌*◌, ◌/◌, ◌%◌, ◌≤◌, ◌<◌, ◌≡◌, ◌⊎◌, inl, inr, arith, sym,
}

pub digits_bound : (a k i x : ℕ) → i < k → x < a → i * a + x < k * a
digits_bound a k i x h l = omega (arith, mul-le-mul_right {m = suc i} {n = k} a h)

pub div-lt : (a k q : ℕ) → q < k * a → q / a < k
div-lt a k q h = lt_of_mul-lt-mul_right a (omega (arith, div-mul-le_self q a, h))

first_digit-le : (a i j x y : ℕ) → i * a + x ≡ j * a + y → y < a → i ≤ j
first_digit-le a i j x y e l = elim (order i j) [
  | inl h ↦ h
  | inr h ↦ absurd (omega (arith, e, l, mul-le-mul_right {m = suc j} {n = i} a h))
]
  where
    order : (i j : ℕ) → (i ≤ j) ⊎ (j < i)
    order i j = omega arith

pub digits_unique : (a i j x y : ℕ) → i * a + x ≡ j * a + y → x < a → y < a → (i ≡ j) × (x ≡ y)
digits_unique a i j x y e l m =
    let same : i ≡ j =
      omega (arith, first_digit-le a i j x y e m, first_digit-le a j i y x (sym e) l) in
    (same, digits_of same)
  where
    digits_of : i ≡ j → x ≡ y
    digits_of same = grind arith

pub digits : (a q : ℕ) → q / a * a + q % a ≡ q
digits a q = div-add-mod' q a
