-- ===== src/Broadcast.antt =====
-- The queue by which `BroadcastExec` gives every consumer task all batches of a partition:
-- src/execution_plans/broadcast.rs. The mutex makes each call atomic. `cancelled` is the token that
-- stops the producer; the channel that wakes waiting readers is the moment at which they poll.
mod Cursors
pub mod Invariant
pub mod Runs
mod Slots
pub mod Progress
pub mod Delivery
mod Examples
use Prim.Native.Nat
use datafusion_distributed.Prelude.{
  ℕ, zero, suc, ◌+◌, ◌-◌, ◌%◌, Bool, true, false, ◌||◌, List, [], ◌∷◌, ◌++◌, Option, Result, ok,
  err, if◌then◌else◌, ltb, ◌==◌, get_elem?, replicate, drop,
}

abbrev pub reclaim_interval : ℕ
reclaim_interval = 8

pub data ReaderSlot : Type 0 where
  pending released : ReaderSlot
  reading : (next_cursor : ℕ) → ReaderSlot

pub data ClaimError : Type 0 where
  out_of_range executed_twice : ClaimError

-- What polling a consumer gives. It panics where an `expect`, an index or an `unreachable` does.
pub data Poll (T : Type 0) : Type 0 where
  ready : T → Poll T
  ended waiting panicked : Poll T

-- `self.readers[i] = slot`
unfoldable pub set_slot : List ReaderSlot → ℕ → ReaderSlot → List ReaderSlot
set_slot [] i r = []
set_slot (x ∷ xs) zero r = r ∷ xs
set_slot (x ∷ xs) (suc i) r = x ∷ set_slot xs i r

-- The least cursor of the readers that are not released.
unfoldable pub least : ℕ → Option ℕ → Option ℕ
least n Option.none = Option.some n
least n (Option.some m) = Option.some (Nat.min n m)

unfoldable pub minimum_cursor : List ReaderSlot → Option ℕ
minimum_cursor [] = Option.none
minimum_cursor (pending ∷ rs) = least 0 (minimum_cursor rs)
minimum_cursor (reading c ∷ rs) = least c (minimum_cursor rs)
minimum_cursor (released ∷ rs) = minimum_cursor rs

unfoldable pub unwrap_or : ℕ → Option ℕ → ℕ
unwrap_or d Option.none = d
unwrap_or d (Option.some n) = n

unfoldable pub released_pending : List ReaderSlot → List ReaderSlot
released_pending [] = []
released_pending (pending ∷ rs) = released ∷ released_pending rs
released_pending (released ∷ rs) = released ∷ released_pending rs
released_pending (reading c ∷ rs) = reading c ∷ released_pending rs

unfoldable pub count_pending : List ReaderSlot → ℕ
count_pending [] = 0
count_pending (pending ∷ rs) = 1 + count_pending rs
count_pending (released ∷ rs) = count_pending rs
count_pending (reading c ∷ rs) = count_pending rs

pub record BroadcastShared (T : Type 0) : Type 0 where
  pub entries : List T
  pub base_cursor : ℕ
  pub tail_cursor : ℕ
  pub readers : List ReaderSlot
  pub retaining_readers : ℕ
  pub closed : Bool
  pub cancelled : Bool

unfoldable pub new : (T : Type 0) → ℕ → BroadcastShared T
new T expected_readers = record {
  entries = [];
  base_cursor = 0;
  tail_cursor = 0;
  readers = replicate expected_readers pending;
  retaining_readers = expected_readers;
  closed = false;
  cancelled = false;
}

module _ {T : Type 0} where
  unfoldable pub reclaim_processed_entries : BroadcastShared T → BroadcastShared T
  reclaim_processed_entries s =
      let minimum = unwrap_or s.tail_cursor (minimum_cursor s.readers) in
      record s { entries = drop (minimum - s.base_cursor) s.entries; base_cursor = minimum }

  unfoldable pub push : T → BroadcastShared T → Bool × BroadcastShared T
  push value s =
      if s.retaining_readers == 0
      then (false, s)
      else let pushed = record s {
        entries = s.entries ++ (value ∷ []);
        tail_cursor = s.tail_cursor + 1;
      } in
        (
          true,
          if pushed.tail_cursor % reclaim_interval == 0
              then reclaim_processed_entries pushed
              else pushed,
        )

  -- `drop` of the queue, which the producer holds
  unfoldable pub close : BroadcastShared T → BroadcastShared T
  close s = record s { closed = true }

  pub claim_slot :
      Option ReaderSlot → ℕ → BroadcastShared T → Result ClaimError (Unit {0}) × BroadcastShared T
  claim_slot Option.none c s = (err out_of_range, s)
  claim_slot (Option.some pending) c s =
      (ok tt, record s { readers = set_slot s.readers c (reading 0) })
  claim_slot (Option.some (reading n)) c s = (err executed_twice, s)
  claim_slot (Option.some released) c s = (err executed_twice, s)

  unfoldable pub claim : ℕ → BroadcastShared T → Result ClaimError (Unit {0}) × BroadcastShared T
  unfolding claim_slot
  claim c s = claim_slot (get_elem? s.readers c) c s

  -- `cancel.cancel()` if no readers remain
  pub cancel_if_unread : BroadcastShared T → BroadcastShared T
  cancel_if_unread s = record s { cancelled = s.cancelled || s.retaining_readers == 0 }

  unfoldable pub release_pending : BroadcastShared T → BroadcastShared T
  unfolding cancel_if_unread
  release_pending s = cancel_if_unread (
      reclaim_processed_entries (record s {
        readers = released_pending s.readers;
        retaining_readers = s.retaining_readers - count_pending s.readers;
      }))

  pub release_slot : Option ReaderSlot → ℕ → BroadcastShared T → BroadcastShared T
  unfolding cancel_if_unread
  release_slot Option.none c s = s
  release_slot (Option.some released) c s = s
  release_slot (Option.some r) c s = cancel_if_unread (
      reclaim_processed_entries (record s {
        readers = set_slot s.readers c released;
        retaining_readers = s.retaining_readers - 1;
      }))

  -- also the `drop` of a consumer; an index out of range, which panics, changes nothing
  unfoldable pub release : ℕ → BroadcastShared T → BroadcastShared T
  unfolding release_slot
  release c s = release_slot (get_elem? s.readers c) c s

  pub entry_at : Option T → (c next : ℕ) → BroadcastShared T → Poll T × BroadcastShared T
  entry_at Option.none c next s = (panicked, s)
  entry_at (Option.some v) c next s =
      (ready v, record s { readers = set_slot s.readers c (reading (next + 1)) })

  pub poll_slot : Option ReaderSlot → ℕ → BroadcastShared T → Poll T × BroadcastShared T
  unfolding entry_at
  poll_slot Option.none c s = (panicked, s)
  poll_slot (Option.some pending) c s = (panicked, s)
  poll_slot (Option.some released) c s = (ended, s)
  poll_slot (Option.some (reading next)) c s =
      if ltb next s.tail_cursor
      then if ltb next s.base_cursor
        then (panicked, s)
        else entry_at (get_elem? s.entries (next - s.base_cursor)) c next s
      else if s.closed
      then (ended, release c s)
      else (waiting, s)

  -- One pass of the loop of `poll_next`.
  unfoldable pub poll_next : ℕ → BroadcastShared T → Poll T × BroadcastShared T
  unfolding poll_slot
  poll_next c s = poll_slot (get_elem? s.readers c) c s

-- The calls on a queue, in the order in which they take the mutex.
pub data Call (T : Type 0) : Type 0 where
  pushes : T → Call T
  closes releases_pending : Call T
  claims polls releases : ℕ → Call T
