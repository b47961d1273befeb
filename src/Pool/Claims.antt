-- ===== src/Pool/Claims.antt =====
-- A stream of a connection pool is handed out once (src/worker/worker_connection_pool.rs).
use datafusion_distributed.Prelude.{
  ℕ, zero, suc, ◌≢◌, ◌-◌, ◌≡◌, refl, Bool, true, false, not, List, [], ◌∷◌, Option, none, some,
  Result, ok, err, ◌>>=◌, if◌then◌else◌, ltb, arith, if-elim, All,
}
use datafusion_distributed.Pool.{
  Key, StreamSlot, Setup, connecting, connected, failed, StreamGroup, WorkerConnectionPool, Handle,
  Call, executes, sets_up, polls, drops, PoolError, entered, put, claim, claim_at, claim_slot,
  claimed_group, handle, execute, fill, set_up_group, set_up_once, take_at, take_connected, run,
  worker_out_of_range, task_not_found, already_claimed,
}
use datafusion_distributed.Pool.Groups.{same_key_self, Tracks, Keeps, run-Tracks}

module _ {S : Type 0} where
  -- Is the slot of an index claimed?
  unfoldable claimed_at : List (StreamSlot S) → ℕ → Bool
  claimed_at [] i = false
  claimed_at (s ∷ ss) zero = s.claimed
  claimed_at (s ∷ ss) (suc i) = claimed_at ss i

  claimed_at-fill :
      (ss : List (StreamSlot S)) (xs : List S) (i : ℕ)
      → claimed_at ss i ≡ true
      → claimed_at (fill ss xs) i ≡ true
  unfolding claimed_at fill
  claimed_at-fill [] xs i h = h
  claimed_at-fill (s ∷ ss) [] i h = h
  claimed_at-fill (s ∷ ss) (x ∷ xs) zero h = ground (arith, h)
  claimed_at-fill (s ∷ ss) (x ∷ xs) (suc i) h = claimed_at-fill ss xs i h

  claimed_at-take_at :
      (close : Bool) (ss : List (StreamSlot S)) (i j : ℕ)
      → claimed_at ss i ≡ true
      → claimed_at (take_at close ss j) i ≡ true
  unfolding claimed_at take_at
  claimed_at-take_at close [] i j h = h
  claimed_at-take_at close (s ∷ ss) zero zero h = h
  claimed_at-take_at close (s ∷ ss) (suc i) zero h = h
  claimed_at-take_at close (s ∷ ss) zero (suc j) h = h
  claimed_at-take_at close (s ∷ ss) (suc i) (suc j) h = claimed_at-take_at close ss i j h

  -- the slots after a claim, which an error leaves
  abbrev pub slots_of :
      (E : Type 0)
      → List (StreamSlot S)
      → Result (PoolError E) (List (StreamSlot S))
      → List (StreamSlot S)
  slots_of E ss (ok ts) = ts
  slots_of E ss (err e) = ss

  claimed_at-claim_at :
      (E : Type 0) (ss : List (StreamSlot S)) (i j : ℕ)
      → claimed_at ss i ≡ true
      → claimed_at (slots_of E ss (claim_at {E = E} ss j)) i ≡ true
  unfolding claimed_at claim_at
  claimed_at-claim_at E [] i j h = ground (arith, h)
  claimed_at-claim_at E (s ∷ ss) zero zero h = ground (arith, h)
  claimed_at-claim_at E (s ∷ ss) (suc i) zero h = ground (arith, h)
  claimed_at-claim_at E (s ∷ ss) zero (suc j) h = ground (arith, h)
  claimed_at-claim_at E (s ∷ ss) (suc i) (suc j) h = ground (arith, h, claimed_at-claim_at E ss i j)

module _ {S E : Type 0} where
  claim_claimed :
      (ss : List (StreamSlot S)) (i : ℕ)
      → claimed_at ss i ≡ true
      → claim_at {E = E} ss i ≡ err already_claimed
  unfolding claimed_at claim_at
  claim_claimed [] i h = ground (arith, h)
  claim_claimed (s ∷ ss) zero h = ground (arith, h)
  claim_claimed (s ∷ ss) (suc i) h = ground (arith, claim_claimed ss i h)

  claim_claims :
      (ss ss' : List (StreamSlot S)) (i : ℕ)
      → claim_at {E = E} ss i ≡ ok ss'
      → claimed_at ss' i ≡ true
  unfolding claimed_at claim_at
  claim_claims [] ss' i h = ground (arith, h)
  claim_claims (s ∷ ss) ss' zero h = ground (arith, h)
  claim_claims (s ∷ ss) ss' (suc i) h =
      elim (claim_at {E = E} ss i)
          as (λ r.
            claim_at {E = E} ss i ≡ r
            → (r >>= λ rest. ok (s ∷ rest)) ≡ ok ss'
            → claimed_at ss' (suc i) ≡ true) [
              | ok rest ↦ λ e h'. ground (arith, h', claim_claims ss rest i e)
              | err x ↦ λ e h'. ground (arith, h')
            ]
        refl h

  abbrev Claimed : ℕ → StreamGroup S E → Type 0
  Claimed i g = claimed_at g.slots i ≡ true

  Claimed-claim :
      (k : Key) (target i : ℕ) (g : StreamGroup S E)
      → Claimed i g
      → Claimed i (claimed_group g (claim_slot k target g))
  unfolding claim_slot claimed_group
  Claimed-claim k target i g h =
      ground (arith, h, claimed_at-claim_at E g.slots i (target - k.first) h)

  Claimed-set_up :
      (answer : Result E (List S)) (i : ℕ) (g : StreamGroup S E)
      → Claimed i g
      → Claimed i (set_up_once answer g)
  unfolding set_up_once set_up_group
  Claimed-set_up (err e) i g h = ground (arith, h)
  Claimed-set_up (ok xs) i g h = ground (arith, h, claimed_at-fill g.slots xs i h)

  Claimed-take :
      (i j : ℕ) (g : StreamGroup S E) (u : Setup E) → Claimed i g → Claimed i (take_connected j g u)
  unfolding take_connected
  Claimed-take i j g connecting h = h
  Claimed-take i j g (failed e) h = h
  Claimed-take i j g connected h = claimed_at-take_at false g.slots i j h

  Keeps-Claimed : (i : ℕ) (k : Key) (c : Call S E) → Keeps (Claimed i) k c
  Keeps-Claimed i k (executes w j target) = λ g h. Claimed-claim j target i g h
  Keeps-Claimed i k (sets_up j answer) = λ g h. Claimed-set_up answer i g h
  Keeps-Claimed i k (polls h) = λ e g t. Claimed-take i h.index g g.setup t
  Keeps-Claimed i k (drops h) = λ e g t. claimed_at-take_at true g.slots i h.index t

  all-Keeps : (i : ℕ) (k : Key) (cs : List (Call S E)) → All (Keeps (Claimed i) k) cs
  all-Keeps i k [] = tt
  all-Keeps i k (c ∷ cs) = (Keeps-Claimed i k c, all-Keeps i k cs)

  claimed_group-Claimed :
      (k : Key) (target : ℕ) (g : StreamGroup S E) (h : Handle)
      (r : Result (PoolError E) (List (StreamSlot S)))
      → claim_slot k target g ≡ r
      → handle k target r ≡ ok h
      → Claimed (target - k.first) (claimed_group g r)
  unfolding claim_slot handle claimed_group
  claimed_group-Claimed k target g h (ok ss) c e =
      claim_claims g.slots ss (target - k.first) (ground (arith, c))
  claimed_group-Claimed k target g h (err x) c e = ground (arith, e)

  claim-Claimed :
      (k : Key) (target : ℕ) (g : StreamGroup S E) (pool : WorkerConnectionPool S E) (h : Handle)
      → (claim k target g pool).1 ≡ ok h
      → Tracks (Claimed (target - k.first)) k ((claim k target g pool).0.groups k)
  unfolding claim put
  claim-Claimed k target g pool h e =
      rw (same_key_self k) (claimed_group-Claimed k target g h (claim_slot k target g) refl e)

  execute-Claimed :
      (w : ℕ) (k : Key) (target : ℕ) (pool : WorkerConnectionPool S E) (h : Handle)
      → (execute w k target pool).1 ≡ ok h
      → Tracks (Claimed (target - k.first)) k ((execute w k target pool).0.groups k)
  unfolding execute
  execute-Claimed w k target pool h =
      let Q = λ (r : WorkerConnectionPool S E × Result (PoolError E) Handle).
        r.1 ≡ ok h → Tracks (Claimed (target - k.first)) k (r.0.groups k) in
      let made = claim k target (entered k (pool.groups k)) pool in
      let second = if not (ltb k.task pool.size) then (pool, err task_not_found) else made in
      if-elim Q (not (ltb k.task w)) {x = (pool, err worker_out_of_range)} {y = second}
        (λ e. absurd (ground (arith, e)))
        (if-elim Q (not (ltb k.task pool.size)) {x = (pool, err task_not_found)} {y = made}
          (λ e. absurd (ground (arith, e)))
          (claim-Claimed k target (entered k (pool.groups k)) pool h))

  refused :
      (k : Key) (target : ℕ) (o : Option (StreamGroup S E)) (pool : WorkerConnectionPool S E)
      (h : Handle)
      → Tracks (Claimed (target - k.first)) k o
      → (claim k target (entered k o) pool).1 ≢ ok h
  unfolding claim claim_slot handle entered
  refused k target none pool h t = absurd t
  refused k target (some g) pool h t =
      λ e. ground (arith, e, claim_claimed g.slots (target - k.first) t)

  Claimed-execute :
      (w : ℕ) (k : Key) (target : ℕ) (pool : WorkerConnectionPool S E) (h : Handle)
      → Tracks (Claimed (target - k.first)) k (pool.groups k)
      → (execute w k target pool).1 ≢ ok h
  unfolding execute
  Claimed-execute w k target pool h t =
      let Q = λ (r : WorkerConnectionPool S E × Result (PoolError E) Handle). r.1 ≢ ok h in
      let made = claim k target (entered k (pool.groups k)) pool in
      let second = if not (ltb k.task pool.size) then (pool, err task_not_found) else made in
      if-elim Q (not (ltb k.task w)) {x = (pool, err worker_out_of_range)} {y = second}
        (λ e. ground (arith, e))
        (if-elim Q (not (ltb k.task pool.size)) {x = (pool, err task_not_found)} {y = made}
          (λ e. ground (arith, e)) (refused k target (pool.groups k) pool h t))

  -- A stream that was handed out is not handed out again, whatever is called in between.
  pub claimed_once :
      (w v : ℕ) (k : Key) (target : ℕ) (pool : WorkerConnectionPool S E) (cs : List (Call S E))
      (h j : Handle)
      → (execute w k target pool).1 ≡ ok h
      → (execute v k target (run (execute w k target pool).0 cs)).1 ≢ ok j
  claimed_once w v k target pool cs h j e =
      Claimed-execute v k target (run (execute w k target pool).0 cs) j (
        run-Tracks (Claimed (target - k.first)) k cs (execute w k target pool).0
          (all-Keeps (target - k.first) k cs) (execute-Claimed w k target pool h e))
