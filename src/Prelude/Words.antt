-- ===== src/Prelude/Words.antt =====
-- The conversion of a number to 64 bits, as by `as u64` and by `as usize` on a 64-bit machine.
use datafusion_distributed.Prelude.{ℕ, ◌%◌, ◌<◌, ◌≡◌, arith}

unfoldable pub as_word : ℕ → ℕ
as_word n = n % 18446744073709551616

pub as_word_idem : (n : ℕ) → as_word (as_word n) ≡ as_word n
unfolding as_word
as_word_idem n = omega arith

pub as_word_small : (n : ℕ) → n < 18446744073709551616 → as_word n ≡ n
unfolding as_word
as_word_small n h = omega arith
