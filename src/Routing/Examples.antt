-- ===== src/Routing/Examples.antt =====
-- Failover over three workers of which the last answers.
use Prim.Native.Nat
use Prim.Native.Nat.{◌^◌}
use datafusion_distributed.Prelude.{
  ℕ, ◌*◌, ◌≡◌, ◌≢◌, ◌≤◌, ◌+◌, refl, [], ◌∷◌, Option, some, Result, ok, err, if◌then◌else◌, ◌==◌,
  arith,
}
use datafusion_distributed.Wire.Status.{RetryOutcome, other_url}
use datafusion_distributed.Routing.{
  Config, contains, dial_with_failover, same_url_retry_backoff, retain,
}
use datafusion_distributed.Routing.Attempts.{attempts, attempts-dial_with_failover}
use datafusion_distributed.Routing.Backoff.{same_url_retry_backoff_lem}
use datafusion_distributed.Routing.Failover.{Shuffle, Fails, failover_finds}

abbrev config : Config
config = record { max_retries = 3; initial_backoff = 100; max_backoff = 500 }

-- Worker 7 answers, and the others have an error with their own number.
abbrev answer : ℕ → ℕ → Result ℕ ℕ
answer attempt url = if url == 7 then ok 0 else err url

abbrev outcome : ℕ → Option RetryOutcome
outcome e = some other_url

abbrev in_place : Shuffle
in_place = record {
  shuffle = λ us. us;
  length-shuffle = λ us. refl;
  contains-shuffle = λ g us. refl;
}

others_fail : (u : ℕ) → u ≢ 7 → Fails config answer outcome u
others_fail u n attempt = (u, ground (arith, n), refl)

failover_finds_example :
    (dial_with_failover config answer outcome (λ us. us) 5 (7 ∷ 5 ∷ 6 ∷ [])).1 ≡ ok 0
unfolding contains retain
failover_finds_example =
    failover_finds config answer outcome in_place 7 0 5 (7 ∷ 5 ∷ 6 ∷ []) (λ attempt. refl)
      others_fail refl (omega arith)

same_url_retry_backoff_lem_example : same_url_retry_backoff 2 100 500 ≡ Nat.min (100 * 2 ^ 2) 500
same_url_retry_backoff_lem_example = same_url_retry_backoff_lem 2 100 500

attempts-dial_with_failover_example :
    attempts (dial_with_failover config answer outcome (λ us. us) 5 (7 ∷ 5 ∷ 6 ∷ [])).0 ≤ 3 + 1
attempts-dial_with_failover_example =
    attempts-dial_with_failover config answer outcome (λ us. us) 5 (7 ∷ 5 ∷ 6 ∷ [])
