-- ===== src/Routing.antt =====
-- How a task gets its worker: `dial_with_failover` of src/events/defaults/routing.rs. What a worker
-- answers, how an error is to be retried and the shuffling of the candidates are parameters. Times
-- are in milliseconds; where a backoff would saturate it is above the maximum, to which it is cut.
-- The number of attempts, one more than the retries, is not cut at the largest machine integer.
pub mod Backoff
pub mod Failover
pub mod Attempts
mod Examples
use Prim.Native.Nat
use datafusion_distributed.Prelude.{
  ℕ, zero, suc, ◌+◌, ◌*◌, Bool, true, false, List, [], ◌∷◌, ◌++◌, Option, none, some, Result, ok,
  err, if◌then◌else◌, ltb, ◌==◌,
}
use datafusion_distributed.Wire.Status.{RetryOutcome, same_url, other_url}

-- The loop of `same_url_retry_backoff`.
unfoldable pub backed_off : (retry backoff max_backoff : ℕ) → ℕ
backed_off zero backoff max_backoff = backoff
backed_off (suc retry) backoff max_backoff =
    let next = Nat.min (backoff * 2) max_backoff in
    let rest = backed_off retry next max_backoff in if next == max_backoff then next else rest

unfoldable pub same_url_retry_backoff : (retry initial_backoff max_backoff : ℕ) → ℕ
unfolding backed_off
same_url_retry_backoff retry initial_backoff max_backoff =
    backed_off retry (Nat.min initial_backoff max_backoff) max_backoff

-- URLs are numbers.
unfoldable pub contains : ℕ → List ℕ → Bool
contains u [] = false
contains u (v ∷ vs) = let rest = contains u vs in if u == v then true else rest

-- `retry_urls.retain(|candidate| attempted_urls.insert(candidate))`
unfoldable pub retain : (attempted : List ℕ) → List ℕ → List ℕ
unfolding contains
retain attempted [] = []
retain attempted (u ∷ us) = elim (contains u attempted) [
  | true ↦ retain attempted us
  | false ↦ u ∷ retain (u ∷ attempted) us
]

-- `Vec::pop`
unfoldable pub pop : List ℕ → Option (ℕ × List ℕ)
pop [] = none
pop (u ∷ us) = elim (pop us) [ none ↦ some (u, []) | some (v, vs) ↦ some (v, u ∷ vs) ]

-- The error that is returned, by the errors of the workers.
pub data Failure (E : Type 0) : Type 0 where
  no_urls : Failure E
  single : E → Failure E
  collection : List E → Failure E

pub data Event : Type 0 where
  dials : (url : ℕ) → Event
  sleeps : (milliseconds : ℕ) → Event

pub record Config : Type 0 where
  pub max_retries : ℕ
  pub initial_backoff : ℕ
  pub max_backoff : ℕ

unfoldable pub failure : {E : Type 0} → List E → Failure E
failure [] = no_urls
failure (e ∷ []) = single e
failure (e ∷ d ∷ es) = collection (e ∷ d ∷ es)

-- `answer attempt url` is what the worker at a URL answers an attempt.
module _ {E R : Type 0} (cfg : Config) (answer : ℕ → ℕ → Result E R)
    (outcome : E → Option RetryOutcome) where
  -- What the calls did, and their result.
  abbrev pub Trace : Type 0
  Trace = List Event × Result (Failure E) R

  unfoldable pub after : List Event → Trace → Trace
  after events t = (events ++ t.0, t.1)

  -- The attempts from number `attempt` on, of which `left` are left.
  unfoldable pub dial_from :
      (left attempt url : ℕ) (retry_urls : List ℕ) (same_url_retries : ℕ) (errs : List E) → Trace
  unfolding after failure pop same_url_retry_backoff
  dial_from zero attempt url retry_urls same errs = ([], err (failure errs))
  dial_from (suc left) attempt url retry_urls same errs = elim (answer attempt url) [
    | ok r ↦ (dials url ∷ [], ok r)
    | err e ↦ elim (outcome e) [
      | none ↦ (dials url ∷ [], err (single e))
      | some same_url ↦
          let again = ltb attempt cfg.max_retries in
          let wait = same_url_retry_backoff same cfg.initial_backoff cfg.max_backoff in
          after (dials url ∷ (if again then sleeps wait ∷ [] else [])) (
            dial_from left (suc attempt) url retry_urls (if again then suc same else same)
              (errs ++ (e ∷ [])))
      | some other_url ↦ elim (pop retry_urls) [
        | none ↦ (dials url ∷ [], err (failure (errs ++ (e ∷ []))))
        | some (next, rest) ↦
            after (dials url ∷ []) (dial_from left (suc attempt) next rest 0 (errs ++ (e ∷ [])))
      ]
    ]
  ]

  unfoldable pub dial_with_failover : (shuffle : List ℕ → List ℕ) → (url : ℕ) → List ℕ → Trace
  unfolding dial_from retain
  dial_with_failover shuffle url retry_urls =
      dial_from (cfg.max_retries + 1) 0 url (shuffle (retain (url ∷ []) retry_urls)) 0 []
