-- ===== src/Slot/Readers.antt =====
-- What the readers of a slot see.
use datafusion_distributed.Prelude.{
  ℕ, ◌+◌, ◌≡◌, ◌≢◌, refl, Bool, true, false, ok, err, List, [], ◌∷◌, arith, All,
}
use datafusion_distributed.Slot.{
  Slot, SlotState, empty, abandoned, written, no_value, Call, IsSeal, reserves, seals, Read,
  await_writer, await_value, done, reserve_write, abandon_generation, seal_with_value_if,
  start_read, abandon_slot, reserve_slot, poll_read, expire, step, run,
}

abbrev pub NoSeal : {T : Type 0} → List (Call T) → Type 0
NoSeal cs = All (λ c. IsSeal c → ⊥) cs

module _ {T : Type 0} where
  -- A reader consumes the value.
  abbrev pub IsConsumed : Slot T → T → Type 0
  IsConsumed s v = (s.slot ≡ written v) × (s.read_started ≡ true)

  step-IsConsumed :
      (s : Slot T) (c : Call T) (v : T) → (IsSeal c → ⊥) → IsConsumed s v → IsConsumed (step s c) v
  unfolding step
  step-IsConsumed s reserves v n h = ground arith
  step-IsConsumed s (seals accepts item) v n h = absurd (n tt)
  step-IsConsumed s _ v n h = ground arith

  -- Once a reader has started on a value, no call but a seal changes the slot.
  pub run-IsConsumed :
      (s : Slot T) (cs : List (Call T)) (v : T)
      → NoSeal cs
      → IsConsumed s v
      → IsConsumed (run s cs) v
  unfolding run
  run-IsConsumed s [] v n h = h
  run-IsConsumed s (c ∷ cs) v n h = run-IsConsumed (step s c) cs v n.1 (step-IsConsumed s c v n.0 h)

  started_step : (s : Slot T) (c : Call T) → s.read_started ≡ true → (step s c).read_started ≡ true
  unfolding step
  started_step s reserves h = ground arith
  started_step s _ h = ground arith

  started_run :
      (s : Slot T) (cs : List (Call T)) → s.read_started ≡ true → (run s cs).read_started ≡ true
  unfolding run
  started_run s [] h = h
  started_run s (c ∷ cs) h = started_run (step s c) cs (started_step s c h)

  abbrev pub IsPending : Read T → Type 0
  IsPending await_writer = Unit
  IsPending await_value = Unit
  IsPending (done r) = ⊥

  written_of_read :
      (s : Slot T) (p : Read T) (v : T)
      → IsPending p
      → poll_read s p ≡ done (ok v)
      → s.slot ≡ written v
  unfolding poll_read
  written_of_read s await_writer v n h = ground arith
  written_of_read s p v n h = ground arith

  read_of_written :
      (s : Slot T) (p : Read T) (v : T)
      → IsPending p
      → s.slot ≡ written v
      → poll_read s p ≡ done (ok v)
  unfolding poll_read
  read_of_written s await_writer v n h = ground arith
  read_of_written s p v n h = ground arith

  -- When a started read returns a value, every read that is pending after further calls without a
  -- seal returns the same value when it is polled.
  pub readers_agree :
      (s : Slot T) (before after : List (Call T)) (p q : Read T) (v : T)
      → NoSeal after
      → IsPending p
      → IsPending q
      → let t = run (start_read s).1 before in
        poll_read t p ≡ done (ok v) → poll_read (run t after) q ≡ done (ok v)
  unfolding start_read
  readers_agree s before after p q v n i j h =
      let t = run (start_read s).1 before in
      read_of_written (run t after) q v j
        (run-IsConsumed t after v n
          (written_of_read t p v i h, started_run (start_read s).1 before refl)).0

  sealed :
      (s : Slot T) (accepts : T → Bool) (item v : T)
      → s.slot ≡ written v
      → accepts v ≡ true
      → ((seal_with_value_if accepts item s).0 ≡ true)
        × IsConsumed (seal_with_value_if accepts item s).1 item
  unfolding seal_with_value_if
  sealed s accepts item v e a = ground arith

  rejected :
      (s : Slot T) (accepts : T → Bool) (item v : T)
      → s.slot ≡ written v
      → accepts v ≡ false
      → seal_with_value_if accepts item s ≡ (false, s)
  unfolding seal_with_value_if
  rejected s accepts item v e a = ground arith

  -- Where the slot holds a value that the predicate accepts, sealing succeeds, and the new value
  -- stays through all later calls that are no seals.
  pub seal_stays :
      (s : Slot T) (accepts : T → Bool) (item v : T) (cs : List (Call T))
      → NoSeal cs
      → s.slot ≡ written v
      → accepts v ≡ true
      → ((seal_with_value_if accepts item s).0 ≡ true)
        × IsConsumed (run (seal_with_value_if accepts item s).1 cs) item
  seal_stays s accepts item v cs n e a =
      let (answered, consumed) = sealed s accepts item v e a in
      (answered, run-IsConsumed (seal_with_value_if accepts item s).1 cs item n consumed)

  nonempty_step : (s : Slot T) (c : Call T) → s.slot ≢ empty → (step s c).slot ≢ empty
  unfolding step
  nonempty_step s reserves h = ground arith
  nonempty_step s _ h = ground arith

  nonempty_run : (s : Slot T) (cs : List (Call T)) → s.slot ≢ empty → (run s cs).slot ≢ empty
  unfolding run
  nonempty_run s [] h = h
  nonempty_run s (c ∷ cs) h = nonempty_run (step s c) cs (nonempty_step s c h)

  nonempty_reserve : (s : Slot T) → (reserve_write s).1.slot ≢ empty
  unfolding reserve_write
  nonempty_reserve s = ground arith

  no_timeout : (s : Slot T) (p : Read T) → s.slot ≢ empty → expire (poll_read s p) ≡ poll_read s p
  unfolding poll_read expire
  no_timeout s await_writer h = ground arith
  no_timeout s p h = ground arith

  -- Once a writer has reserved the slot, the timer of no read that is polled after it has an effect.
  pub reserved_disarms_timeout :
      (s : Slot T) (cs : List (Call T)) (p : Read T)
      → let t = run (reserve_write s).1 cs in expire (poll_read t p) ≡ poll_read t p
  reserved_disarms_timeout s cs p =
      no_timeout (run (reserve_write s).1 cs) p
        (nonempty_run (reserve_write s).1 cs (nonempty_reserve s))

  abandoned_slot :
      (g : ℕ) (x : SlotState T)
      → ((v : T) → x ≢ written v)
      → abandon_slot g (reserve_slot g x) ≡ abandoned
  unfolding abandon_slot reserve_slot
  abandoned_slot g empty h = ground arith
  abandoned_slot g (written v) h = absurd (h v refl)
  abandoned_slot g x h = ground arith

  abandoned_after :
      (s : Slot T)
      → ((v : T) → s.slot ≢ written v)
      → (abandon_generation (reserve_write s).0 (reserve_write s).1).slot ≡ abandoned
  unfolding reserve_write abandon_generation
  abandoned_after s h =
      let g = s.latest_reserved_generation + 1 in ground (arith, abandoned_slot g s.slot h)

  no_value_read :
      (s : Slot T) (p : Read T)
      → s.slot ≡ abandoned
      → IsPending p
      → poll_read s p ≡ done (err no_value)
  unfolding poll_read
  no_value_read s await_writer e i = ground arith
  no_value_read s p e i = ground arith

  -- When the slot holds no value and its latest writer gives up, every pending read is answered
  -- `NoValue`.
  pub abandon_wakes_readers :
      (s : Slot T) (p : Read T)
      → ((v : T) → s.slot ≢ written v)
      → IsPending p
      → let (g, t) = reserve_write s in poll_read (abandon_generation g t) p ≡ done (err no_value)
  abandon_wakes_readers s p h i = no_value_read _ p (abandoned_after s h) i
