-- ===== src/Filters/Dispatch.antt =====
-- The dispatch of a merged dynamic filter to the tasks that consume it:
-- src/coordinator/dynamic_filter_registry.rs. A channel is a number, and what is sent to the tasks is
-- a list with the latest message first. Whether the query has finished and which channels are open
-- comes with each call. Schemas are a parameter with their equality.
pub mod Offers
pub mod Kept
use datafusion_distributed.Prelude.{
  ℕ, Bool, true, false, not, ◌&&◌, List, [], ◌∷◌, Option, none, some, Result, ok, err,
  if◌then◌else◌, ◌==◌,
}
use datafusion_distributed.Filters.Merge.{
  DynamicFilterMergePolicy, TaskKey, Expressions, Report, PlannedDynamicFilter, merge,
}
use datafusion_distributed.Filters.Updates.{
  UpdateError, same_key, lookup, record_dynamic_filter_update, register_producer, FilterState,
  unregistered,
}

pub data RegistryError : Type 0 where
  missing_schema channel_closed conflicting_schemas : RegistryError
  update_error : UpdateError → RegistryError

-- What a call meets: whether the query has finished when it starts and when a channel turns out to be
-- closed, and which channels are open.
pub record Env : Type 0 where
  pub cancelled : Bool
  pub cancelled_since : Bool
  pub open_channel : ℕ → Bool

-- How the loop of `dispatch` goes on after a task.
pub data Verdict : Type 0 where
  continues finished fails : Verdict

module _ (x : Expressions) where
  unfoldable pub contains : TaskKey → List TaskKey → Bool
  unfolding same_key
  contains k [] = false
  contains k (j ∷ js) = let rest = contains k js in if same_key x k j then true else rest

  unfoldable pub is_some : Option (Option (Report x)) → Bool
  is_some none = false
  is_some (some r) = true

  unfoldable pub contains_key : TaskKey → List (TaskKey × Option (Report x)) → Bool
  unfolding is_some lookup
  contains_key k ps = is_some (lookup x k ps)

  unfoldable pub sender_of : TaskKey → List (TaskKey × ℕ) → Option ℕ
  unfolding same_key
  sender_of k [] = none
  sender_of k ((j, c) ∷ js) = let rest = sender_of k js in if same_key x k j then some c else rest

  unfoldable pub remove : TaskKey → List TaskKey → List TaskKey
  unfolding same_key
  remove k [] = []
  remove k (j ∷ js) = let rest = remove k js in if same_key x k j then rest else j ∷ rest

module _ (x : Expressions) (Schema : Type 0) where
  -- `ApplyDynamicFilter` over the channel of a task
  pub record Message : Type 0 where
    pub task : TaskKey
    pub channel : ℕ
    pub expression : Report x
    pub producer_schema : Schema

  pub record Outbox : Type 0 where
    pub delivered : List TaskKey
    pub sent : List Message

  -- The state of the registry, for one filter.
  pub record Registry : Type 0 where
    pub state : FilterState x
    pub producer_schema : Option Schema
    pub consumer_tasks : List TaskKey
    pub task_senders : List (TaskKey × ℕ)
    pub outbox : Outbox

  unfoldable pub send : TaskKey → ℕ → Report x → Schema → Outbox → Outbox
  send k channel m schema box = record {
    delivered = k ∷ box.delivered;
    sent =
        record { task = k; channel = channel; expression = m; producer_schema = schema } ∷ box.sent;
  }

  -- A sender that is found.
  unfoldable pub offer_to : Env → TaskKey → Report x → Schema → Outbox → Option ℕ → Outbox × Verdict
  unfolding send
  offer_to env k m schema box none = (box, continues)
  offer_to env k m schema box (some channel) =
      if env.open_channel channel
      then (send k channel m schema box, continues)
      else (box, if env.cancelled_since then finished else fails)

  -- One round of the loop of `dispatch`.
  unfoldable pub offer : Env → Registry → Report x → Schema → TaskKey → Outbox → Outbox × Verdict
  unfolding offer_to contains contains_key sender_of
  offer env r m schema k box =
      if contains_key x k r.state.filter.producers
      then (box, continues)
      else if contains x k box.delivered
      then (box, continues)
      else offer_to env k m schema box (sender_of x k r.task_senders)

  unfoldable pub offer_all :
      Env
      → Registry
      → Report x
      → Schema
      → List TaskKey
      → Outbox
      → Outbox × Result RegistryError (Unit {0})
  unfolding offer
  offer_all env r m schema [] box = (box, ok tt)
  offer_all env r m schema (k ∷ ks) box =
      let next = offer env r m schema k box in
      elim next.1 [
        | continues ↦ offer_all env r m schema ks next.0
        | finished ↦ (next.0, ok tt)
        | fails ↦ (next.0, err channel_closed)
      ]

  unfoldable pub with_outbox :
      Registry
      → Outbox × Result RegistryError (Unit {0})
      → Registry × Result RegistryError (Unit {0})
  with_outbox r (box, result) = (record r { outbox = box }, result)

  unfoldable pub dispatch_merged :
      Env
      → Registry
      → Option (Report x)
      → Option Schema
      → Registry × Result RegistryError (Unit {0})
  unfolding offer_all with_outbox
  dispatch_merged env r none schema = (r, ok tt)
  dispatch_merged env r (some m) none = (r, err missing_schema)
  dispatch_merged env r (some m) (some schema) =
      with_outbox r (offer_all env r m schema r.consumer_tasks r.outbox)

  unfoldable pub dispatch : Env → Registry → Registry × Result RegistryError (Unit {0})
  unfolding dispatch_merged
  dispatch env r =
      if env.cancelled
      then (r, ok tt)
      else dispatch_merged env r r.state.filter.merged r.producer_schema

  -- What `merge` leaves: a changed filter has been delivered to nobody.
  unfoldable pub absorb : List ℕ → Bool × PlannedDynamicFilter x → Registry → Registry
  absorb sealed (changed, f) r = record r {
    state = record { filter = f; sealed_stages = sealed };
    outbox = if changed then record r.outbox { delivered = [] } else r.outbox;
  }

  unfoldable pub after_merge :
      Env
      → List ℕ
      → Bool × PlannedDynamicFilter x
      → Registry
      → Registry × Result RegistryError (Unit {0})
  unfolding absorb dispatch
  after_merge env sealed m r =
      if m.0 then dispatch env (absorb sealed m r) else (absorb sealed m r, ok tt)

  unfoldable pub seal_stage : Env → ℕ → Registry → Registry × Result RegistryError (Unit {0})
  unfolding after_merge
  seal_stage env stage r =
      let sealed = stage ∷ r.state.sealed_stages in
      after_merge env sealed (merge x sealed r.state.filter) r

  unfoldable pub record_update :
      Env → TaskKey → Report x → Registry → Registry × Result RegistryError (Unit {0})
  unfolding after_merge
  record_update env k d r =
      let sealed = r.state.sealed_stages in
      elim (record_dynamic_filter_update x sealed k d r.state.filter) [
        | err e ↦ (r, err (update_error e))
        | ok m ↦ after_merge env sealed m r
      ]

  -- An entry that stands before an older one of the same task hides it.
  unfoldable pub register_sender :
      Env → TaskKey → ℕ → Registry → Registry × Result RegistryError (Unit {0})
  unfolding remove dispatch
  register_sender env k channel r = dispatch env (record r {
    task_senders = (k, channel) ∷ r.task_senders;
    outbox = record r.outbox { delivered = remove x k r.outbox.delivered };
  })
