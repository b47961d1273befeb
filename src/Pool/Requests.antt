-- ===== src/Pool/Requests.antt =====
-- A consumer task's shuffle (src/execution_plans/network_shuffle.rs) on its connection pool
-- (src/worker/worker_connection_pool.rs).
use datafusion_distributed.Prelude.{
  ℕ, zero, suc, ◌+◌, ◌-◌, ◌<◌, ◌≡◌, ◌≢◌, ◌⊎◌, refl, ap, sym, subst, ◌∙◌, true, false, List, [], ◌∷◌,
  some, ok, if◌then◌else◌, replicate, arith, inl, inr,
}
use datafusion_distributed.Pool.{
  Key, same_key, StreamSlot, StreamGroup, free, WorkerConnectionPool, Handle, entered, claim,
  claim_at, claim_slot, claimed_group, handle, execute, put, new,
}

module _ {S : Type 0} where
  -- The slot of an index is there and not claimed.
  abbrev pub Unclaimed : List (StreamSlot S) → ℕ → Type 0
  Unclaimed [] i = ⊥
  Unclaimed (s ∷ ss) zero = s.claimed ≡ false
  Unclaimed (s ∷ ss) (suc i) = Unclaimed ss i

  module _ (E : Type 0) where
    claim-Unclaimed :
        (ss : List (StreamSlot S)) (i : ℕ)
        → Unclaimed ss i
        → (ts : List (StreamSlot S)) × (claim_at {E = E} ss i ≡ ok ts)
          × ((j : ℕ) → j ≢ i → Unclaimed ss j → Unclaimed ts j)
    unfolding claim_at
    claim-Unclaimed [] i u = absurd u
    claim-Unclaimed (s ∷ ss) zero u = (record s { claimed = true } ∷ ss, ground (arith, u), others)
      where
        others :
            (j : ℕ) → j ≢ 0 → Unclaimed (s ∷ ss) j → Unclaimed (record s { claimed = true } ∷ ss) j
        others zero n v = absurd (n refl)
        others (suc j) n v = v
    claim-Unclaimed (s ∷ ss) (suc i) u =
        let (ts, e, k) = claim-Unclaimed ss i u in (s ∷ ts, ground (arith, e), others ts k)
      where
        others :
            (ts : List (StreamSlot S))
            → ((j : ℕ) → j ≢ i → Unclaimed ss j → Unclaimed ts j)
            → (j : ℕ) → j ≢ suc i
            → Unclaimed (s ∷ ss) j
            → Unclaimed (s ∷ ts) j
        others ts k zero n v = v
        others ts k (suc j) n v = k j (λ e. n (ap suc e)) v

Unclaimed-replicate : (S : Type 0) (n i : ℕ) → i < n → Unclaimed (replicate n (free {S = S})) i
Unclaimed-replicate S zero i l = absurd (omega arith)
Unclaimed-replicate S (suc n) zero l = refl
Unclaimed-replicate S (suc n) (suc i) l = Unclaimed-replicate S n i (omega arith)

module _ (off a : ℕ) where
  -- the connection of a consumer task to producer task `t`, for `a` partitions from `off` on
  abbrev pub connection : ℕ → Key
  connection t = record { task = t; first = off; last = off + a }

  connection_task : (t u : ℕ) → same_key (connection t) (connection u) ≡ true → t ≡ u
  unfolding same_key
  connection_task t u e = ground (arith, e)

  module _ {S E : Type 0} where
    -- Partition `p` of the consumer task is not claimed of producer task `t`.
    abbrev pub IsFree : WorkerConnectionPool S E → ℕ → ℕ → Type 0
    IsFree pool t p = Unclaimed (entered (connection t) (pool.groups (connection t))).slots p

    slots_ok :
        (t p : ℕ) (g : StreamGroup S E) (ts : List (StreamSlot S))
        → claim_at {E = E} g.slots p ≡ ok ts
        → claim_slot (connection t) (off + p) g ≡ ok ts
    unfolding claim_slot
    slots_ok t p g ts e =
        let at : claim_at {E = E} g.slots (off + p - off) ≡ ok ts =
          ap (claim_at {E = E} g.slots) (omega arith) ∙ e in
        ground (arith, at)

    execute_ok :
        (w t p : ℕ) (pool : WorkerConnectionPool S E) (g : StreamGroup S E)
        (ts : List (StreamSlot S))
        → t < w
        → t < pool.size
        → entered (connection t) (pool.groups (connection t)) ≡ g
        → claim_slot (connection t) (off + p) g ≡ ok ts
        → execute w (connection t) (off + p) pool ≡ (
          put (connection t) (record g { slots = ts }) pool,
          ok (record { key = connection t; index = off + p - off }),
        )
    unfolding execute claim claimed_group handle
    execute_ok w t p pool g ts lw ls eg c = ground (arith, eg, c)

    put-IsFree :
        (t p u q : ℕ) (pool : WorkerConnectionPool S E) (ts : List (StreamSlot S))
        (g : StreamGroup S E)
        → g ≡ entered (connection t) (pool.groups (connection t))
        → ((j : ℕ) → j ≢ p → Unclaimed g.slots j → Unclaimed ts j)
        → (u ≢ t) ⊎ (q ≢ p)
        → IsFree pool u q
        → IsFree (put (connection t) (record g { slots = ts }) pool) u q
    unfolding put entered
    put-IsFree t p u q pool ts g eg keep n f =
        elim (same_key (connection u) (connection t))
            as (λ b.
              same_key (connection u) (connection t) ≡ b
              → Unclaimed
                  (entered (connection u) (
                    if b then some (record g { slots = ts }) else pool.groups (connection u))).slots
                  q) [
                    | true ↦ λ e. keep q (other (connection_task u t e) n) (
                        subst (λ (r : StreamGroup S E). Unclaimed r.slots q)
                          (ap (λ v. entered (connection v) (pool.groups (connection v)))
                              (connection_task u t e)
                            ∙ sym eg)
                          f)
                    | false ↦ λ e. f
                  ]
          refl
      where
        other : u ≡ t → (u ≢ t) ⊎ (q ≢ p) → q ≢ p
        other e (inl m) = absurd (m e)
        other e (inr m) = m

    pub execute-IsFree :
        (w t p : ℕ) (pool : WorkerConnectionPool S E)
        → t < w
        → t < pool.size
        → IsFree pool t p
        → (h : Handle) × (next : WorkerConnectionPool S E) × (execute w
              (connection t)
              (off + p)
              pool
            ≡ (next, ok h))
          × (next.size ≡ pool.size)
          × ((u q : ℕ) → (u ≢ t) ⊎ (q ≢ p) → IsFree pool u q → IsFree next u q)
    unfolding put
    execute-IsFree w t p pool lw ls f =
        let g = entered (connection t) (pool.groups (connection t)) in
        let (ts, e, keep) = claim-Unclaimed E g.slots p f in
        (
          record { key = connection t; index = off + p - off },
          put (connection t) (record g { slots = ts }) pool,
          execute_ok w t p pool g ts lw ls refl (slots_ok t p g ts e),
          refl,
          λ u q n v. put-IsFree t p u q pool ts g refl keep n v,
        )

  pub new-IsFree : (S E : Type 0) (n t p : ℕ) → p < a → IsFree (new {S = S} {E = E} n) t p
  unfolding new entered
  new-IsFree S E n t p l = Unclaimed-replicate S (off + a - off) p (omega arith)
