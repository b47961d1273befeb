-- ===== src/Routing/Failover.antt =====
-- Failover finds a worker that answers, and the number of attempts is bounded.
use datafusion_distributed.Prelude.{
  ℕ, zero, suc, ◌+◌, ◌≤◌, ◌<◌, ◌≡◌, ◌≢◌, refl, sym, ap, subst, ◌∙◌, ◌⊎◌, inl, inr, Bool, true,
  false, Bool-cases, List, [], ◌∷◌, ◌++◌, Option, none, some, Result, ok, err, if◌then◌else◌, ◌==◌,
  ==→eq, length, arith,
}
use datafusion_distributed.Wire.Status.{RetryOutcome, other_url}
use datafusion_distributed.Routing.{
  contains, retain, pop, Config, after, dial_from, dial_with_failover,
}

-- `pop` takes an item out of a list that has one.
record Popped (us : List ℕ) : Type 0 where
  last : ℕ
  rest : List ℕ
  popped : pop us ≡ some (last, rest)
  shorter : suc (length rest) ≡ length us
  kept : (g : ℕ) → contains g us ≡ true → contains g (last ∷ rest) ≡ true

pop_lem : (u : ℕ) (us : List ℕ) → Popped (u ∷ us)
unfolding pop contains
pop_lem u [] = record { last = u; rest = []; popped = refl; shorter = refl; kept = λ g h. h }
pop_lem u (v ∷ us) =
    let p = pop_lem v us in
    record {
      last = p.last;
      rest = u ∷ p.rest;
      popped =
          ap
            (λ o. elim o as (λ _. Option (ℕ × List ℕ)) [
              | none ↦ some (u, [])
              | some (w, vs) ↦ some (w, u ∷ vs)
            ])
            p.popped;
      shorter = omega (arith, p.shorter);
      kept = λ g h. ground (arith, h, p.kept g);
    }

length-retain : (attempted us : List ℕ) → length (retain attempted us) ≤ length us
unfolding retain
length-retain attempted [] = omega arith
length-retain attempted (u ∷ us) =
    elim (contains u attempted)
      as (λ (c : Bool).
        length (elim c as (λ _. List ℕ) [
          | true ↦ retain attempted us
          | false ↦ u ∷ retain (u ∷ attempted) us
        ])
        ≤ suc (length us)) [
          | true ↦ omega (arith, length-retain attempted us)
          | false ↦ omega (arith, length-retain (u ∷ attempted) us)
        ]

contains_head : (g u : ℕ) (us : List ℕ) → (g == u) ≡ true → contains g (u ∷ us) ≡ true
unfolding contains
contains_head g u us e = ap (λ c. if c then true else contains g us) e

contains_tail : (g u : ℕ) (us : List ℕ) → (g == u) ≡ false → contains g (u ∷ us) ≡ contains g us
unfolding contains
contains_tail g u us e = ap (λ c. if c then true else contains g us) e

retain_seen :
    (attempted : List ℕ) (u : ℕ) (us : List ℕ)
    → contains u attempted ≡ true
    → retain attempted (u ∷ us) ≡ retain attempted us
unfolding retain
retain_seen attempted u us e =
    ap
      (λ c. elim c as (λ _. List ℕ) [
        | true ↦ retain attempted us
        | false ↦ u ∷ retain (u ∷ attempted) us
      ])
      e

retain_new :
    (attempted : List ℕ) (u : ℕ) (us : List ℕ)
    → contains u attempted ≡ false
    → retain attempted (u ∷ us) ≡ u ∷ retain (u ∷ attempted) us
unfolding retain
retain_new attempted u us e =
    ap
      (λ c. elim c as (λ _. List ℕ) [
        | true ↦ retain attempted us
        | false ↦ u ∷ retain (u ∷ attempted) us
      ])
      e

nowhere : (g : ℕ) → contains g [] ≢ true
unfolding contains
nowhere g h = ground (arith, h)

-- What is retained are the candidates that have not been attempted.
contains-retain :
    (g : ℕ) (attempted us : List ℕ)
    → contains g us ≡ true
    → (contains g attempted ≡ true) ⊎ (contains g (retain attempted us) ≡ true)
contains-retain g attempted [] h = absurd (nowhere g h)
contains-retain g attempted (u ∷ us) h = elim (Bool-cases (g == u)) [
  | inl e ↦ elim (Bool-cases (contains u attempted)) [
    | inl c ↦ inl (subst (λ x. contains x attempted ≡ true) (sym (==→eq g u e)) c)
    | inr c ↦ inr (
        ap (contains g) (retain_new attempted u us c)
        ∙ contains_head g u (retain (u ∷ attempted) us) e)
  ]
  | inr e ↦
      let later = sym (contains_tail g u us e) ∙ h in
      elim (Bool-cases (contains u attempted)) [
        | inl c ↦ elim (contains-retain g attempted us later) [
          | inl k ↦ inl k
          | inr k ↦ inr (ap (contains g) (retain_seen attempted u us c) ∙ k)
        ]
        | inr c ↦ elim (contains-retain g (u ∷ attempted) us later) [
          | inl k ↦ inl (sym (contains_tail g u attempted e) ∙ k)
          | inr k ↦ inr (
              ap (contains g) (retain_new attempted u us c)
              ∙ contains_tail g u (retain (u ∷ attempted) us) e
              ∙ k)
        ]
      ]
]

-- How the candidates are shuffled.
pub record Shuffle : Type 0 where
  pub shuffle : List ℕ → List ℕ
  pub length-shuffle : (us : List ℕ) → length (shuffle us) ≡ length us
  pub contains-shuffle : (g : ℕ) (us : List ℕ) → contains g (shuffle us) ≡ contains g us

module _ {E R : Type 0} (cfg : Config) (answer : ℕ → ℕ → Result E R)
    (outcome : E → Option RetryOutcome) where
  -- A worker that fails each attempt in a way that asks for another one.
  abbrev pub Fails : ℕ → Type 0
  Fails u = (attempt : ℕ) → (e : E) × (answer attempt u ≡ err e) × (outcome e ≡ some other_url)

  abbrev pub Answers : ℕ → R → Type 0
  Answers u r = (attempt : ℕ) → answer attempt u ≡ ok r

  dial_ok :
      (left attempt url same : ℕ) (us : List ℕ) (errs : List E) (r : R)
      → answer attempt url ≡ ok r
      → (dial_from cfg answer outcome (suc left) attempt url us same errs).1 ≡ ok r
  unfolding dial_from
  dial_ok left attempt url same us errs r e = ground (arith, e)

  dial_next :
      (left attempt url same next : ℕ) (us rest : List ℕ) (errs : List E) (e : E)
      → answer attempt url ≡ err e
      → outcome e ≡ some other_url
      → pop us ≡ some (next, rest)
      → (dial_from cfg answer outcome (suc left) attempt url us same errs).1
        ≡ (dial_from cfg answer outcome left (suc attempt) next rest 0 (errs ++ (e ∷ []))).1
  unfolding dial_from after
  dial_next left attempt url same next us rest errs e a o p = cc (a, o, p)

  -- The worker is found among the candidates, if there are attempts for all.
  dial_from-finds :
      (g : ℕ) (r : R) (left attempt url same : ℕ) (us : List ℕ) (errs : List E)
      → Answers g r
      → ((u : ℕ) → u ≢ g → Fails u)
      → contains g (url ∷ us) ≡ true
      → length us < left
      → (dial_from cfg answer outcome left attempt url us same errs).1 ≡ ok r
  dial_from-finds g r zero attempt url same us errs a fs h l = absurd (omega (arith, l))
  dial_from-finds g r (suc left) attempt url same us errs a fs h l = elim (Bool-cases (g == url)) [
    | inl e ↦
        dial_ok left attempt url same us errs r
          (subst (λ u. answer attempt u ≡ ok r) (==→eq g url e) (a attempt))
    | inr e ↦
        let (x, ex, ox) = fs url (λ q. ground (arith, e, q)) attempt in
        elim us
            as (λ us.
              contains g us ≡ true
              → length us < suc left
              → (dial_from cfg answer outcome (suc left) attempt url us same errs).1 ≡ ok r) [
                | [] ↦ λ k m. absurd (nowhere g k)
                | u ∷ vs ↦ λ k m.
                    let p = pop_lem u vs in
                    dial_next left attempt url same p.last (u ∷ vs) p.rest errs x ex ox p.popped
                    ∙ dial_from-finds g r left (suc attempt) p.last 0 p.rest (errs ++ (x ∷ [])) a fs
                        (p.kept g k) (omega (arith, p.shorter, m))
              ]
          (sym (contains_tail g url us e) ∙ h) l
  ]

  in_order :
      (sh : Shuffle) (g url : ℕ) (urls : List ℕ)
      → contains g (url ∷ urls) ≡ true
      → contains g (url ∷ sh.shuffle (retain (url ∷ []) urls)) ≡ true
  in_order sh g url urls h = elim (Bool-cases (g == url)) [
    | inl e ↦ contains_head g url (sh.shuffle (retain (url ∷ []) urls)) e
    | inr e ↦ elim (contains-retain g (url ∷ []) urls (sym (contains_tail g url urls e) ∙ h)) [
      | inl k ↦ absurd (nowhere g (sym (contains_tail g url [] e) ∙ k))
      | inr k ↦
          contains_tail g url (sh.shuffle (retain (url ∷ []) urls)) e
          ∙ sh.contains-shuffle g (retain (url ∷ []) urls)
          ∙ k
    ]
  ]

  -- When one worker among the candidates answers and each other one asks for another URL, the task gets
  -- that worker however the candidates are shuffled, if there are as many retries as distinct other
  -- candidates.
  pub failover_finds :
      (sh : Shuffle) (g : ℕ) (r : R) (url : ℕ) (urls : List ℕ)
      → Answers g r
      → ((u : ℕ) → u ≢ g → Fails u)
      → contains g (url ∷ urls) ≡ true
      → length (retain (url ∷ []) urls) ≤ cfg.max_retries
      → (dial_with_failover cfg answer outcome sh.shuffle url urls).1 ≡ ok r
  unfolding dial_with_failover
  failover_finds sh g r url urls a fs h l =
      dial_from-finds g r (cfg.max_retries + 1) 0 url 0 (sh.shuffle (retain (url ∷ []) urls)) [] a
        fs (in_order sh g url urls h) (omega (arith, l, sh.length-shuffle (retain (url ∷ []) urls)))
