-- ===== src/Routing/Backoff.antt =====
-- The backoff before a retry doubles up to its maximum.
use Prim.Native.Nat
use Prim.Native.Nat.{◌^◌}
use datafusion_distributed.Prelude.{
  ℕ, zero, suc, ◌*◌, ◌≤◌, ◌≡◌, ◌∙◌, ap, Bool-cases, leb, inl, inr, ==→eq, if◌then◌else◌, ◌==◌,
  arith,
}
use datafusion_distributed.Routing.{backed_off, same_url_retry_backoff}

-- `x` doubled so many times
abbrev doubled : ℕ → ℕ → ℕ
doubled zero x = x
doubled (suc n) x = doubled n (x * 2)

doubled-grows : (n x : ℕ) → x ≤ doubled n x
doubled-grows zero x = omega arith
doubled-grows (suc n) x = omega (arith, doubled-grows n (x * 2))

backed_off_lem : (n x m : ℕ) → x ≤ m → backed_off n x m ≡ Nat.min (doubled n x) m
unfolding backed_off
backed_off_lem zero x m l = omega arith
backed_off_lem (suc n) x m l = elim (Bool-cases (Nat.min (x * 2) m == m)) [
  | inl e ↦
      ap (λ c. if c then Nat.min (x * 2) m else backed_off n (Nat.min (x * 2) m) m) e
      ∙ omega (arith, ==→eq (Nat.min (x * 2) m) m e, doubled-grows n (x * 2))
  | inr e ↦
      let below : Nat.min (x * 2) m ≡ x * 2 = ground (arith, e) in
      ap (λ c. if c then Nat.min (x * 2) m else backed_off n (Nat.min (x * 2) m) m) e
      ∙ ap (λ y. backed_off n y m) below
      ∙ backed_off_lem n (x * 2) m (omega (arith, below))
]

double-power : (n x : ℕ) → doubled n x ≡ x * 2 ^ n
double-power zero x = omega arith
double-power (suc n) x = double-power n (x * 2) ∙ grind arith

doubled-min : (n x m : ℕ) → Nat.min (doubled n (Nat.min x m)) m ≡ Nat.min (doubled n x) m
doubled-min n x m = elim (Bool-cases (leb x m)) [
  | inl e ↦ ap (λ y. Nat.min (doubled n y) m) (ground (arith, e))
  | inr e ↦
      let above : Nat.min x m ≡ m = ground (arith, e) in
      omega (arith, doubled-grows n (Nat.min x m), above, doubled-grows n x)
]

-- The backoff of a retry is the initial one doubled for each retry before it, up to the maximum.
pub same_url_retry_backoff_lem :
    (retry initial_backoff max_backoff : ℕ)
    → same_url_retry_backoff retry initial_backoff max_backoff
      ≡ Nat.min (initial_backoff * 2 ^ retry) max_backoff
unfolding same_url_retry_backoff
same_url_retry_backoff_lem n x m =
    backed_off_lem n (Nat.min x m) m (omega arith)
    ∙ doubled-min n x m
    ∙ ap (λ y. Nat.min y m) (double-power n x)
