-- ===== src/Slot.antt =====
-- `SingleWriteMultiRead` of src/worker/single_write_multi_read.rs: the slot in which a worker waits
-- for the plan of a task. Each method is one step under the mutex; a pending `read` is a phase that
-- is polled against the slot. Generations do not wrap.
pub mod Invariant
pub mod Readers
mod Examples
use datafusion_distributed.Prelude.{
  ℕ, suc, ◌+◌, ◌≡◌, Bool, true, false, ◌&&◌, ◌||◌, not, Option, Result, ok, err, if◌then◌else◌, ltb,
  ◌==◌, List, [], ◌∷◌,
}

pub data SlotState (T : Type 0) : Type 0 where
  empty : SlotState T
  reserved : ℕ → SlotState T
  abandoned : SlotState T
  written : T → SlotState T

pub data ReadError : Type 0 where
  already_written timeout no_value : ReadError

pub record Slot (T : Type 0) : Type 0 where
  pub slot : SlotState T
  pub read_started : Bool
  pub latest_reserved_generation : ℕ

-- `map(|_| ())`
forget : Result ReadError Bool → Result ReadError (Unit {0})
forget (ok b) = ok tt
forget (err e) = err e

-- The two `wait_for` calls of `read`: for a writer, which the timeout bounds, and for its value.
pub data Read (T : Type 0) : Type 0 where
  await_writer await_value : Read T
  done : Result ReadError T → Read T

module _ {T : Type 0} where
  pub new : Slot T
  new = record { slot = empty; read_started = false; latest_reserved_generation = 0 }

  reserve_slot : ℕ → SlotState T → SlotState T
  reserve_slot g (written v) = written v
  reserve_slot g empty = reserved g
  reserve_slot g abandoned = reserved g
  reserve_slot g (reserved h) = reserved g

  pub reserve_write : Slot T → ℕ × Slot T
  unfolding reserve_slot
  reserve_write s =
      let g = s.latest_reserved_generation + 1 in
      (g, record s { latest_reserved_generation = g; slot = reserve_slot g s.slot })

  abandon_slot : ℕ → SlotState T → SlotState T
  abandon_slot g (reserved h) = if h == g then abandoned else reserved h
  abandon_slot g empty = empty
  abandon_slot g abandoned = abandoned
  abandon_slot g (written v) = written v

  pub abandon_generation : ℕ → Slot T → Slot T
  unfolding abandon_slot
  abandon_generation g s =
      if ltb g s.latest_reserved_generation then s else record s { slot = abandon_slot g s.slot }

  -- the slot after `send_modify`, and whether it was already written
  write_slot : Bool → T → SlotState T → SlotState T × Bool
  write_slot started item (written v) = if started then (written v, true) else (written item, false)
  write_slot started item empty = (written item, false)
  write_slot started item abandoned = (written item, false)
  write_slot started item (reserved h) = (written item, false)

  pub write_generation : ℕ → T → Slot T → Result ReadError Bool × Slot T
  unfolding write_slot
  write_generation g item s =
      if ltb g s.latest_reserved_generation
      then (ok false, s)
      else let w = write_slot s.read_started item s.slot in
        ((if w.1 then err already_written else ok true), record s { slot = w.0 })

  pub write : T → Slot T → Result ReadError (Unit {0}) × Slot T
  unfolding forget
  write item s =
      let (g, s') = reserve_write s in let (r, s'') = write_generation g item s' in (forget r, s'')

  seal_slot : (T → Bool) → T → Slot T → SlotState T → Bool × Slot T
  seal_slot accepts item s (written v) =
      if accepts v
      then (true, record s { slot = written item; read_started = true })
      else (false, s)
  seal_slot accepts item s empty = (false, s)
  seal_slot accepts item s abandoned = (false, s)
  seal_slot accepts item s (reserved h) = (false, s)

  pub seal_with_value_if : (T → Bool) → T → Slot T → Bool × Slot T
  unfolding seal_slot
  seal_with_value_if accepts item s = seal_slot accepts item s s.slot

  value : SlotState T → Option T
  value (written v) = Option.some v
  value empty = Option.none
  value abandoned = Option.none
  value (reserved h) = Option.none

  pub read_now : Slot T → Option T × Slot T
  unfolding value
  read_now s = (value s.slot, record s { read_started = true })

  pub start_read : Slot T → Read T × Slot T
  start_read s = (await_writer, record s { read_started = true })

  poll_value : SlotState T → Read T
  poll_value (written v) = done (ok v)
  poll_value abandoned = done (err no_value)
  poll_value empty = await_value
  poll_value (reserved h) = await_value

  poll_writer : SlotState T → Read T
  unfolding poll_value
  poll_writer empty = await_writer
  poll_writer abandoned = poll_value abandoned
  poll_writer (reserved h) = poll_value (reserved h)
  poll_writer (written v) = poll_value (written v)

  pub poll_read : Slot T → Read T → Read T
  unfolding poll_writer poll_value
  poll_read s await_writer = poll_writer s.slot
  poll_read s await_value = poll_value s.slot
  poll_read s (done r) = done r

  -- The timer of `read` runs out.
  pub expire : Read T → Read T
  expire await_writer = done (err timeout)
  expire await_value = await_value
  expire (done r) = done r

-- The calls that other tasks make on the slot, in the order in which they take the mutex.
pub data Call (T : Type 0) : Type 0 where
  reserves starts_reading reads_now : Call T
  abandons : ℕ → Call T
  writes : ℕ → T → Call T
  seals : (T → Bool) → T → Call T

module _ {T : Type 0} where
  pub step : Slot T → Call T → Slot T
  unfolding reserve_write abandon_generation write_generation seal_with_value_if read_now start_read
  step s reserves = (reserve_write s).1
  step s starts_reading = (start_read s).1
  step s reads_now = (read_now s).1
  step s (abandons g) = abandon_generation g s
  step s (writes g item) = (write_generation g item s).1
  step s (seals accepts item) = (seal_with_value_if accepts item s).1

  pub run : Slot T → List (Call T) → Slot T
  run s [] = s
  run s (c ∷ cs) = run (step s c) cs

  abbrev pub IsSeal : Call T → Type 0
  IsSeal (seals accepts item) = Unit
  IsSeal reserves = ⊥
  IsSeal starts_reading = ⊥
  IsSeal reads_now = ⊥
  IsSeal (abandons g) = ⊥
  IsSeal (writes g item) = ⊥
