-- ===== src/Routing/Attempts.antt =====
-- The attempts of a failover end.
use datafusion_distributed.Prelude.{
  ℕ, zero, suc, ◌+◌, ◌≤◌, ◌≡◌, refl, ap, List, [], ◌∷◌, ◌++◌, Option, none, some, Option-cases, inl,
  inr, Result, Result-cases, ok, err, if◌then◌else◌, ltb, arith,
}
use datafusion_distributed.Wire.Status.{RetryOutcome, same_url, other_url}
use datafusion_distributed.Routing.{
  pop, retain, Event, dials, sleeps, Config, after, dial_from, dial_with_failover,
  same_url_retry_backoff,
}

unfoldable pub attempts : List Event → ℕ
attempts [] = 0
attempts (dials url ∷ es) = suc (attempts es)
attempts (sleeps ms ∷ es) = attempts es

module _ {E R : Type 0} (cfg : Config) (answer : ℕ → ℕ → Result E R)
    (outcome : E → Option RetryOutcome) where
  -- The events of an attempt that is repeated at the same URL.
  abbrev again : (attempt url same : ℕ) → List Event
  again attempt url same =
      dials url
      ∷ (if ltb attempt cfg.max_retries
          then sleeps (same_url_retry_backoff same cfg.initial_backoff cfg.max_backoff) ∷ []
          else [])

  attempts-again :
      (attempt url same : ℕ) (es : List Event)
      → attempts (again attempt url same ++ es) ≡ suc (attempts es)
  unfolding attempts
  attempts-again attempt url same es = ground arith

  -- What a call does, case by case.
  dial_ok :
      (left attempt url same : ℕ) (us : List ℕ) (errs : List E) (r : R)
      → answer attempt url ≡ ok r
      → (dial_from cfg answer outcome (suc left) attempt url us same errs).0 ≡ dials url ∷ []
  unfolding dial_from
  dial_ok left attempt url same us errs r a = cc (a)

  dial_stop :
      (left attempt url same : ℕ) (us : List ℕ) (errs : List E) (e : E)
      → answer attempt url ≡ err e
      → outcome e ≡ none
      → (dial_from cfg answer outcome (suc left) attempt url us same errs).0 ≡ dials url ∷ []
  unfolding dial_from
  dial_stop left attempt url same us errs e a o = cc (a, o)

  dial_last :
      (left attempt url same : ℕ) (us : List ℕ) (errs : List E) (e : E)
      → answer attempt url ≡ err e
      → outcome e ≡ some other_url
      → pop us ≡ none
      → (dial_from cfg answer outcome (suc left) attempt url us same errs).0 ≡ dials url ∷ []
  unfolding dial_from
  dial_last left attempt url same us errs e a o p = cc (a, o, p)

  dial_next :
      (left attempt url same next : ℕ) (us rest : List ℕ) (errs : List E) (e : E)
      → answer attempt url ≡ err e
      → outcome e ≡ some other_url
      → pop us ≡ some (next, rest)
      → (dial_from cfg answer outcome (suc left) attempt url us same errs).0
        ≡ dials url
          ∷ (dial_from cfg answer outcome left (suc attempt) next rest 0 (errs ++ (e ∷ []))).0
  unfolding dial_from after
  dial_next left attempt url same next us rest errs e a o p = cc (a, o, p)

  dial_again :
      (left attempt url same : ℕ) (us : List ℕ) (errs : List E) (e : E)
      → answer attempt url ≡ err e
      → outcome e ≡ some same_url
      → (dial_from cfg answer outcome (suc left) attempt url us same errs).0
        ≡ again attempt url same
          ++ (dial_from cfg answer outcome left
              (suc attempt)
              url
              us
              (if ltb attempt cfg.max_retries then suc same else same)
              (errs ++ (e ∷ []))).0
  unfolding dial_from after
  dial_again left attempt url same us errs e a o = cc (a, o)

  -- Each attempt uses up one of those that are left.
  attempts-dial_from :
      (left attempt url same : ℕ) (us : List ℕ) (errs : List E)
      → attempts (dial_from cfg answer outcome left attempt url us same errs).0 ≤ left
  unfolding attempts dial_from
  attempts-dial_from zero attempt url same us errs = omega arith
  attempts-dial_from (suc left) attempt url same us errs =
      elim (Result-cases (answer attempt url)) [
        | inl (r, a) ↦ omega (arith, ap attempts (dial_ok left attempt url same us errs r a))
        | inr (e, a) ↦
            elim (outcome e)
                as (λ o.
                  outcome e ≡ o
                  → attempts (dial_from cfg answer outcome (suc left) attempt url us same errs).0
                    ≤ suc left) [
                      | none ↦ λ o.
                          omega (arith, ap attempts (dial_stop left attempt url same us errs e a o))
                      | some same_url ↦ λ o. omega (
                        arith,
                        ap attempts (dial_again left attempt url same us errs e a o),
                        attempts-again attempt url same
                            (dial_from cfg answer outcome left (suc attempt) url us
                              (if ltb attempt cfg.max_retries then suc same else same)
                              (errs ++ (e ∷ []))).0,
                        attempts-dial_from left (suc attempt) url
                            (if ltb attempt cfg.max_retries then suc same else same) us
                            (errs ++ (e ∷ [])),
                      )
                      | some other_url ↦ λ o. elim (Option-cases (pop us)) [
                        | inl p ↦
                            omega
                              (arith, ap attempts (dial_last left attempt url same us errs e a o p))
                        | inr ((next, rest), p) ↦ omega (
                          arith,
                          ap attempts (dial_next left attempt url same next us rest errs e a o p),
                          attempts-dial_from left (suc attempt) next 0 rest (errs ++ (e ∷ [])),
                        )
                      ]
                    ]
              refl
      ]

  -- Whatever the workers answer, a failover ends after at most one attempt more than there are retries.
  pub attempts-dial_with_failover :
      (shuffle : List ℕ → List ℕ) (url : ℕ) (urls : List ℕ)
      → attempts (dial_with_failover cfg answer outcome shuffle url urls).0 ≤ cfg.max_retries + 1
  unfolding dial_with_failover
  attempts-dial_with_failover shuffle url urls =
      attempts-dial_from (cfg.max_retries + 1) 0 url 0 (shuffle (retain (url ∷ []) urls)) []
