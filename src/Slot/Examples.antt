-- ===== src/Slot/Examples.antt =====
-- Instances of the theorems on the slot of a task.
use datafusion_distributed.Prelude.{ℕ, ◌≡◌, refl, true, false, ok, List, [], ◌∷◌}
use datafusion_distributed.Slot.{
  Slot, empty, written, Call, reserves, writes, await_writer, await_value, done, reserve_write,
  abandon_generation, write_generation, start_read, poll_read, step, run,
}
use datafusion_distributed.Slot.Invariant.{stale_writer}
use datafusion_distributed.Slot.Readers.{readers_agree}

abbrev fresh : Slot ℕ
fresh = record { slot = empty; read_started = false; latest_reserved_generation = 0 }

-- A retry replaces the first attempt.
abbrev retried : List (Call ℕ)
retried = reserves ∷ reserves ∷ writes 1 10 ∷ writes 2 20 ∷ []

retried_value : (run fresh retried).slot ≡ written 20
unfolding run step
retried_value = refl

stale_writer_example :
    (write_generation 1 10
        (run (reserve_write (run (reserve_write fresh).1 [])).1 (writes 2 20 ∷ []))
      ≡ (ok false, run (reserve_write (run (reserve_write fresh).1 [])).1 (writes 2 20 ∷ [])))
    × (abandon_generation 1
          (run (reserve_write (run (reserve_write fresh).1 [])).1 (writes 2 20 ∷ []))
        ≡ run (reserve_write (run (reserve_write fresh).1 [])).1 (writes 2 20 ∷ []))
unfolding reserve_write
stale_writer_example = stale_writer fresh [] (writes 2 20 ∷ []) 10

abbrev filled : Slot ℕ
filled = record { slot = written 20; read_started = true; latest_reserved_generation = 2 }

readers_agree_example :
    poll_read
      (run (run (start_read fresh).1 (reserves ∷ writes 1 10 ∷ [])) (reserves ∷ writes 2 20 ∷ []))
      await_writer
    ≡ done (ok 10)
unfolding poll_read run step start_read
readers_agree_example =
    readers_agree fresh (reserves ∷ writes 1 10 ∷ []) (reserves ∷ writes 2 20 ∷ []) await_value
      await_writer 10 ((λ x. x), ((λ x. x), tt)) tt tt refl
