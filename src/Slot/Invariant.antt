-- ===== src/Slot/Invariant.antt =====
-- What every sequence of calls on a slot keeps.
use datafusion_distributed.Prelude.{
  ℕ, ◌+◌, ◌≤◌, ◌<◌, ◌≡◌, refl, ◌⊎◌, true, false, ok, err, List, [], ◌∷◌, arith,
}
use datafusion_distributed.Slot.{
  Slot, SlotState, empty, reserved, abandoned, written, already_written, Call, reserves,
  reserve_write, abandon_generation, write_generation, step, run,
}

module _ {T : Type 0} where
  -- A reservation is the latest one; before the first one nothing was reserved or abandoned.
  abbrev pub IsCurrent : SlotState T → ℕ → Type 0
  IsCurrent (reserved h) g = (h ≡ g) × (0 < g)
  IsCurrent empty g = g ≡ 0
  IsCurrent abandoned g = 0 < g
  IsCurrent (written v) g = Unit

  abbrev pub IsValid : Slot T → Type 0
  IsValid s = IsCurrent s.slot s.latest_reserved_generation

  step-IsValid : (s : Slot T) (c : Call T) → IsValid s → IsValid (step s c)
  unfolding step
  step-IsValid s reserves v = ground arith
  step-IsValid s _ v = ground arith

  -- Any sequence of calls keeps a slot valid: a pending reservation is the latest generation that
  -- was handed out, an empty slot has handed out none, and an abandoned one has handed out some.
  pub run-IsValid : (s : Slot T) (cs : List (Call T)) → IsValid s → IsValid (run s cs)
  unfolding run
  run-IsValid s [] v = v
  run-IsValid s (c ∷ cs) v = run-IsValid (step s c) cs (step-IsValid s c v)

  -- Generations are handed out in increasing order, whatever happens between.
  latest-step :
      (s : Slot T) (c : Call T)
      → s.latest_reserved_generation ≤ (step s c).latest_reserved_generation
  unfolding step
  latest-step s reserves = ground arith
  latest-step s _ = ground arith

  latest-run :
      (s : Slot T) (cs : List (Call T))
      → s.latest_reserved_generation ≤ (run s cs).latest_reserved_generation
  unfolding run
  latest-run s [] = omega arith
  latest-run s (c ∷ cs) = omega (arith, latest-step s c, latest-run (step s c) cs)

  latest-reserve :
      (s : Slot T)
      → (reserve_write s).1.latest_reserved_generation ≡ s.latest_reserved_generation + 1
  unfolding reserve_write
  latest-reserve s = refl

  generation-reserve :
      (s : Slot T) → (reserve_write s).0 ≡ (reserve_write s).1.latest_reserved_generation
  unfolding reserve_write
  generation-reserve s = refl

  stale :
      (g : ℕ) (item : T) (s : Slot T)
      → g < s.latest_reserved_generation
      → (write_generation g item s ≡ (ok false, s)) × (abandon_generation g s ≡ s)
  unfolding write_generation abandon_generation
  stale g item s h = (ground arith, ground arith)

  -- Once a newer writer has reserved, the older one changes nothing: neither by writing, whose
  -- answer is `false`, nor by abandoning.
  pub stale_writer :
      (s : Slot T) (before after : List (Call T)) (item : T)
      → let (g, t) = reserve_write s in
        let u = run (reserve_write (run t before)).1 after in
        (write_generation g item u ≡ (ok false, u)) × (abandon_generation g u ≡ u)
  stale_writer s before after item =
      let (g, t) = reserve_write s in
      let v = run t before in
      stale g item (run (reserve_write v).1 after) (
        omega (
          arith,
          latest-run t before,
          latest-run (reserve_write v).1 after,
          latest-reserve v,
          generation-reserve s,
        ))

  -- The latest writer always gets its value in, unless a reader has started on an older value: then
  -- it is told so and the slot stays.
  pub latest_writer :
      (s : Slot T) (item : T)
      → let (g, t) = reserve_write s in
        ((write_generation g item t).0 ≡ ok true)
          × ((write_generation g item t).1.slot ≡ written item)
        ⊎ ((write_generation g item t ≡ (err already_written, t))
            × (s.read_started ≡ true)
            × (t.slot ≡ s.slot))
  unfolding reserve_write write_generation
  latest_writer s item = ground arith
