-- ===== src/Pool/Arrivals.antt =====
-- Which stream of a worker a reader of a connection pool gets
-- (src/worker/worker_connection_pool.rs).
use datafusion_distributed.Prelude.{
  ℕ, ◌-◌, ◌≡◌, ◌≢◌, refl, ap, sym, subst, ◌∙◌, true, false, List, [], ◌∷◌, none, some, Result, ok,
  err, if◌then◌else◌, length, get_elem?, arith, All,
}
use datafusion_distributed.Pool.{
  Key, same_key, StreamSlot, Setup, connecting, connected, failed, StreamGroup,
  WorkerConnectionPool, Handle, Call, executes, sets_up, polls, drops, PoolError, claim_slot,
  claimed_group, fill, set_up_group, set_up_once, set_up, update, take_connected, poll, polled, run,
  fails, streams, no_stream, Poll, is_connecting, put,
}
use datafusion_distributed.Pool.Streams.{claimed_group-slots}
use datafusion_distributed.Pool.Slots.{
  Holds, IsOpen, fill-Holds, take_at-Holds, taken_at-Holds, claim_at-Holds,
}
use datafusion_distributed.Pool.Groups.{same_key_self, Tracks, Keeps, run-Tracks}

module _ {S E : Type 0} where
  -- The group is connected, and the slot of index `i` holds `x`.
  abbrev Has : ℕ → S → StreamGroup S E → Type 0
  Has i x g = (g.setup ≡ connected) × Holds x g.slots i

  Has-claim :
      (k : Key) (target i : ℕ) (x : S) (g : StreamGroup S E)
      → Has i x g
      → Has i x (claimed_group g (claim_slot k target g))
  unfolding claimed_group
  Has-claim k target i x g h = (
    claimed_group-setup g (claim_slot k target g) ∙ h.0,
    claimed_group-slots k target g (λ ss. Holds x ss i) h.1
        (claim_at-Holds E g.slots i (target - k.first) x h.1),
  )
    where
      claimed_group-setup :
          (g : StreamGroup S E) (r : Result (PoolError E) (List (StreamSlot S)))
          → (claimed_group g r).setup ≡ g.setup
      claimed_group-setup g (ok ss) = refl
      claimed_group-setup g (err e) = refl

  Has-set_up :
      (answer : Result E (List S)) (i : ℕ) (x : S) (g : StreamGroup S E)
      → Has i x g
      → Has i x (set_up_once answer g)
  unfolding set_up_once is_connecting
  Has-set_up answer i x g h =
      subst (Has i x) (sym (ap (λ u. if is_connecting u then set_up_group answer g else g) h.0)) h

  Has-take :
      (i j : ℕ) (x : S) (g : StreamGroup S E) (u : Setup E)
      → i ≢ j
      → Has i x g
      → Has i x (take_connected j g u)
  unfolding take_connected
  Has-take i j x g connecting n h = h
  Has-take i j x g (failed e) n h = h
  Has-take i j x g connected n h = (h.0, take_at-Holds false g.slots i j x n h.1)

  -- The call neither polls nor drops the stream.
  abbrev pub Spares : Handle → Call S E → Type 0
  Spares h (executes w k target) = Unit
  Spares h (sets_up k answer) = Unit
  Spares h (polls j) = same_key h.key j.key ≡ true → h.index ≢ j.index
  Spares h (drops j) = same_key h.key j.key ≡ true → h.index ≢ j.index

  Keeps-Has : (h : Handle) (x : S) (c : Call S E) → Spares h c → Keeps (Has h.index x) h.key c
  Keeps-Has h x (executes w k target) n = λ g t. Has-claim k target h.index x g t
  Keeps-Has h x (sets_up k answer) n = λ g t. Has-set_up answer h.index x g t
  Keeps-Has h x (polls j) n = λ e g t. Has-take h.index j.index x g g.setup (n e) t
  Keeps-Has h x (drops j) n = λ e g t. (t.0, take_at-Holds true g.slots h.index j.index x (n e) t.1)

  all-Keeps-Has :
      (h : Handle) (x : S) (cs : List (Call S E))
      → All (Spares h) cs
      → All (Keeps (Has h.index x) h.key) cs
  all-Keeps-Has h x [] n = tt
  all-Keeps-Has h x (c ∷ cs) n = (Keeps-Has h x c n.0, all-Keeps-Has h x cs n.1)

  poll-Has :
      (h : Handle) (x : S) (pool : WorkerConnectionPool S E)
      → Tracks (Has h.index x) h.key (pool.groups h.key)
      → (poll h pool).1 ≡ streams x
  unfolding poll polled
  poll-Has h x pool =
      elim (pool.groups h.key)
        as (λ o.
          Tracks (Has h.index x) h.key o
          → (elim o as (λ _. WorkerConnectionPool S E × Poll S E) [
            | none ↦ (pool, fails no_stream)
            | some g ↦ (
              update h.key (λ g'. take_connected h.index g' g'.setup) pool,
              polled g.setup g.slots h.index,
            )
          ]).1
            ≡ streams x) [
              | none ↦ λ t. absurd t
              | some g ↦
                  λ t. ap (λ u. polled u g.slots h.index) t.0 ∙ connected_poll g.slots h.index t.1
            ]
    where
      connected_poll :
          (ss : List (StreamSlot S)) (i : ℕ)
          → Holds x ss i
          → polled {S = S} {E = E} connected ss i ≡ streams x
      connected_poll ss i t = taken_at-Holds E ss i x t

  connected_group :
      (g : StreamGroup S E) (xs : List S)
      → g.setup ≡ connecting
      → length xs ≡ length g.slots
      → set_up_once (ok xs) g ≡ record { slots = fill g.slots xs; setup = connected }
  unfolding set_up_once set_up_group is_connecting
  connected_group g xs c l = ground (arith, c, l)

  set_up-groups :
      (k : Key) (pool : WorkerConnectionPool S E) (g : StreamGroup S E) (answer : Result E (List S))
      → pool.groups k ≡ some g
      → (set_up k answer pool).groups k ≡ some (set_up_once answer g)
  unfolding set_up update put
  set_up-groups k pool g answer e =
      subst
        (λ o.
          (elim o as (λ _. WorkerConnectionPool S E) [
            | none ↦ pool
            | some g ↦ put k (set_up_once answer g) pool
          ]).groups
            k
          ≡ some (set_up_once answer g))
        (sym e)
        (ap (λ b. if b then some (set_up_once answer g) else pool.groups k) (same_key_self k))

  set_up-Has :
      (k : Key) (pool : WorkerConnectionPool S E) (g : StreamGroup S E) (i : ℕ) (xs : List S)
      (x : S)
      → pool.groups k ≡ some g
      → g.setup ≡ connecting
      → length xs ≡ length g.slots
      → IsOpen g.slots i
      → get_elem? xs i ≡ some x
      → Tracks (Has i x) k ((set_up k (ok xs) pool).groups k)
  set_up-Has k pool g i xs x e c l o n =
      subst (Tracks (Has i x) k)
        (sym (set_up-groups k pool g (ok xs) e ∙ ap some (connected_group g xs c l)))
        (refl, fill-Holds g.slots xs i x o n)

  -- When the worker answers with a stream for each slot of a group, the reader that has claimed a slot
  -- gets the stream of its own partition at its first poll, if it has not gone before the answer came,
  -- whatever else is called between the answer and the poll.
  pub stream_arrives :
      (pool : WorkerConnectionPool S E) (h : Handle) (g : StreamGroup S E) (xs : List S) (x : S)
      (cs : List (Call S E))
      → pool.groups h.key ≡ some g
      → g.setup ≡ connecting
      → length xs ≡ length g.slots
      → IsOpen g.slots h.index
      → get_elem? xs h.index ≡ some x
      → All (Spares h) cs
      → (poll h (run (set_up h.key (ok xs) pool) cs)).1 ≡ streams x
  stream_arrives pool h g xs x cs e c l o n sp = poll-Has h x (run (set_up h.key (ok xs) pool) cs) (
      run-Tracks (Has h.index x) h.key cs (set_up h.key (ok xs) pool) (all-Keeps-Has h x cs sp)
        (set_up-Has h.key pool g h.index xs x e c l o n))
