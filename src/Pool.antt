-- ===== src/Pool.antt =====
-- `WorkerConnectionPool` of src/worker/worker_connection_pool.rs. A slot is locked for each access,
-- so a call on it is atomic; the task that sets up a group fills its slots one after another, and a
-- call on a slot comes before or after the slot is filled, so that the filling is one step. Metrics
-- are not modelled, and what the worker answers is an input.
pub mod Groups
pub mod Claims
pub mod Slots
pub mod Streams
pub mod Arrivals
pub mod Requests
pub mod Shuffles
mod Examples
use datafusion_distributed.Prelude.{
  ℕ, zero, suc, ◌-◌, Bool, true, false, not, ◌&&◌, List, [], ◌∷◌, Option, none, some, Result, ok,
  err, ◌>>=◌, if◌then◌else◌, ltb, ◌==◌, length, replicate,
}

-- A producer task and the range of partitions that a connection spans.
pub record Key : Type 0 where
  pub task : ℕ
  pub first : ℕ
  pub last : ℕ

unfoldable pub same_key : Key → Key → Bool
same_key j k = j.task == k.task && j.first == k.first && j.last == k.last

-- `S` is the type of a worker's streams, and `E` that of an error of the worker.
pub data PoolError (E : Type 0) : Type 0 where
  worker_out_of_range task_not_found no_stream already_claimed stream_count : PoolError E
  worker_failed : E → PoolError E

pub record StreamSlot (S : Type 0) : Type 0 where
  pub stream : Option S
  pub claimed : Bool
  pub closed : Bool

-- `ready`: the setup of a group
pub data Setup (E : Type 0) : Type 0 where
  connecting connected : Setup E
  failed : PoolError E → Setup E

pub record StreamGroup (S E : Type 0) : Type 0 where
  pub slots : List (StreamSlot S)
  pub setup : Setup E

-- The vector of maps is a function of the task and the range, for the tasks below `size`.
pub record WorkerConnectionPool (S E : Type 0) : Type 0 where
  pub size : ℕ
  pub groups : Key → Option (StreamGroup S E)

-- A stream that is handed out, by its group and its slot.
pub record Handle : Type 0 where
  pub key : Key
  pub index : ℕ

-- What a poll of a stream gives that has not taken the worker's stream yet.
pub data Poll (S E : Type 0) : Type 0 where
  pending : Poll S E
  streams : S → Poll S E
  fails : PoolError E → Poll S E

pub data Call (S E : Type 0) : Type 0 where
  executes : (workers : ℕ) → Key → (target : ℕ) → Call S E
  sets_up : Key → Result E (List S) → Call S E
  polls drops : Handle → Call S E

module _ {S : Type 0} where
  abbrev pub free : StreamSlot S
  free = record { stream = none; claimed = false; closed = false }

  unfoldable pub fill : List (StreamSlot S) → List S → List (StreamSlot S)
  fill [] xs = []
  fill (s ∷ ss) [] = s ∷ ss
  fill (s ∷ ss) (x ∷ xs) = (if s.closed then s else record s { stream = some x }) ∷ fill ss xs

  -- `stream.take()`, with `closed` set when the stream is dropped
  unfoldable pub take_at : Bool → List (StreamSlot S) → ℕ → List (StreamSlot S)
  take_at close [] i = []
  take_at close (s ∷ ss) zero =
      record s { stream = none; closed = if close then true else s.closed } ∷ ss
  take_at close (s ∷ ss) (suc i) = s ∷ take_at close ss i

module _ {E : Type 0} where
  unfoldable pub is_connecting : Setup E → Bool
  is_connecting connecting = true
  is_connecting connected = false
  is_connecting (failed e) = false

module _ {S E : Type 0} where
  pub new : ℕ → WorkerConnectionPool S E
  new input_tasks = record { size = input_tasks; groups = λ k. none }

  abbrev pub fresh : Key → StreamGroup S E
  fresh k = record { slots = replicate (k.last - k.first) free; setup = connecting }

  -- `entry(..).or_insert_with(..)`
  unfoldable pub entered : Key → Option (StreamGroup S E) → StreamGroup S E
  entered k none = fresh k
  entered k (some g) = g

  unfoldable pub put : Key → StreamGroup S E → WorkerConnectionPool S E → WorkerConnectionPool S E
  unfolding same_key
  put k g pool = record pool { groups = λ j. if same_key j k then some g else pool.groups j }

  unfoldable pub claim_at : List (StreamSlot S) → ℕ → Result (PoolError E) (List (StreamSlot S))
  claim_at [] i = err no_stream
  claim_at (s ∷ ss) zero =
      if s.claimed then err already_claimed else ok (record s { claimed = true } ∷ ss)
  claim_at (s ∷ ss) (suc i) = do rest ← claim_at ss i; ok (s ∷ rest)

  unfoldable pub claim_slot : Key → ℕ → StreamGroup S E → Result (PoolError E) (List (StreamSlot S))
  unfolding claim_at
  claim_slot k target g =
      if ltb target k.first then err no_stream else claim_at g.slots (target - k.first)

  -- The group with the claim, or as it was.
  unfoldable pub claimed_group :
      StreamGroup S E → Result (PoolError E) (List (StreamSlot S)) → StreamGroup S E
  claimed_group g (ok ss) = record g { slots = ss }
  claimed_group g (err e) = g

  unfoldable pub handle :
      Key → ℕ → Result (PoolError E) (List (StreamSlot S)) → Result (PoolError E) Handle
  handle k target (ok ss) = ok (record { key = k; index = target - k.first })
  handle k target (err e) = err e

  -- The claim of the slot of partition `target` in the group of a connection.
  unfoldable pub claim :
      Key
      → (target : ℕ) → StreamGroup S E
      → WorkerConnectionPool S E
      → WorkerConnectionPool S E × Result (PoolError E) Handle
  unfolding claim_slot claimed_group handle put
  claim k target g pool =
      let claims = claim_slot k target g in
      (put k (claimed_group g claims) pool, handle k target claims)

  -- `execute` of partition `target`, for a stage on so many workers
  unfoldable pub execute :
      (workers : ℕ)
      → Key
      → (target : ℕ) → WorkerConnectionPool S E
      → WorkerConnectionPool S E × Result (PoolError E) Handle
  unfolding claim entered
  execute workers k target pool =
      if not (ltb k.task workers)
      then (pool, err worker_out_of_range)
      else if not (ltb k.task pool.size)
      then (pool, err task_not_found)
      else claim k target (entered k (pool.groups k)) pool

  -- The end of the spawned task, by what the worker answered.
  unfoldable pub set_up_group : Result E (List S) → StreamGroup S E → StreamGroup S E
  unfolding fill
  set_up_group (err e) g = record g { setup = failed (worker_failed e) }
  set_up_group (ok xs) g =
      if length xs == length g.slots
      then record { slots = fill g.slots xs; setup = connected }
      else record g { setup = failed stream_count }

  unfoldable pub update :
      Key
      → (StreamGroup S E → StreamGroup S E)
      → WorkerConnectionPool S E
      → WorkerConnectionPool S E
  unfolding put
  update k f pool = elim (pool.groups k) [ none ↦ pool | some g ↦ put k (f g) pool ]

  unfoldable pub set_up_once : Result E (List S) → StreamGroup S E → StreamGroup S E
  unfolding set_up_group is_connecting
  set_up_once answer g = if is_connecting g.setup then set_up_group answer g else g

  -- The task of a group ends once.
  unfoldable pub set_up :
      Key → Result E (List S) → WorkerConnectionPool S E → WorkerConnectionPool S E
  unfolding set_up_once update
  set_up k answer pool = update k (set_up_once answer) pool

  unfoldable pub taken_at : List (StreamSlot S) → ℕ → Poll S E
  taken_at [] i = fails no_stream
  taken_at (s ∷ ss) zero = elim s.stream [ none ↦ fails no_stream | some x ↦ streams x ]
  taken_at (s ∷ ss) (suc i) = taken_at ss i

  unfoldable pub polled : Setup E → List (StreamSlot S) → ℕ → Poll S E
  unfolding taken_at
  polled connecting ss i = pending
  polled (failed e) ss i = fails e
  polled connected ss i = taken_at ss i

  unfoldable pub take_connected : ℕ → StreamGroup S E → Setup E → StreamGroup S E
  unfolding take_at
  take_connected i g connecting = g
  take_connected i g (failed e) = g
  take_connected i g connected = record g { slots = take_at false g.slots i }

  -- A poll of a stream that has not taken the worker's stream yet.
  unfoldable pub poll : Handle → WorkerConnectionPool S E → WorkerConnectionPool S E × Poll S E
  unfolding polled take_connected update
  poll h pool = elim (pool.groups h.key) [
    | none ↦ (pool, fails no_stream)
    | some g ↦ (
      update h.key (λ g'. take_connected h.index g' g'.setup) pool,
      polled g.setup g.slots h.index,
    )
  ]

  -- `on_drop_stream`
  unfoldable pub drop_stream : Handle → WorkerConnectionPool S E → WorkerConnectionPool S E
  unfolding update take_at
  drop_stream h pool = update h.key (λ g. record g { slots = take_at true g.slots h.index }) pool

  unfoldable pub step : WorkerConnectionPool S E → Call S E → WorkerConnectionPool S E
  unfolding execute set_up poll drop_stream
  step pool (executes workers k target) = (execute workers k target pool).0
  step pool (sets_up k answer) = set_up k answer pool
  step pool (polls h) = (poll h pool).0
  step pool (drops h) = drop_stream h pool

  unfoldable pub run : WorkerConnectionPool S E → List (Call S E) → WorkerConnectionPool S E
  run pool [] = pool
  run pool (c ∷ cs) = run (step pool c) cs
