-- ===== src/Broadcast/Examples.antt =====
-- A queue with two consumers, of which one reads, and instances of the theorems at it.
use datafusion_distributed.Prelude.{
  ◌+◌, ℕ, ◌≤◌, ◌≡◌, ◌≢◌, refl, List, [], ◌∷◌, ◌++◌, some, get_elem?, length, take, arith,
}
use datafusion_distributed.Broadcast.{
  ReaderSlot, pending, released, reading, BroadcastShared, ended, panicked, Call, pushes, closes,
  releases_pending, claims, polls, set_slot, least, minimum_cursor, unwrap_or, released_pending,
  count_pending, new, reclaim_processed_entries, push, close, claim, release_pending, release,
  poll_next,
}
use datafusion_distributed.Broadcast.Invariant.{IsConsistent}
use datafusion_distributed.Broadcast.Runs.{step, run, run-IsConsistent}
use datafusion_distributed.Broadcast.Progress.{run_heard}
use datafusion_distributed.Broadcast.Delivery.{
  received_in_order, received_all, poll_safe, subtractions_safe,
}

abbrev half_read : List (Call ℕ)
half_read = claims 0 ∷ pushes 10 ∷ pushes 11 ∷ polls 0 ∷ []

-- The second consumer never comes; the first reads all.
abbrev all_read : List (Call ℕ)
all_read = half_read ++ (releases_pending ∷ closes ∷ polls 0 ∷ [])

abbrev after : List (Call ℕ) → BroadcastShared ℕ × List ℕ
after cs = run (new ℕ 2, []) cs

half_way : get_elem? (after half_read).0.readers 0 ≡ some (reading 1)
unfolding run step claim push poll_next new set_slot
half_way = refl

half_taken : (after half_read).1 ≡ 10 ∷ 11 ∷ []
unfolding run step claim push poll_next new set_slot
half_taken = refl

all_the_way : get_elem? (after all_read).0.readers 0 ≡ some (reading 2)
unfolding run step claim push poll_next new set_slot release_pending close reclaim_processed_entries
    released_pending count_pending minimum_cursor least unwrap_or
all_the_way = refl

told_ended : (poll_next 0 (after all_read).0).0 ≡ ended
unfolding run step claim push poll_next new set_slot release_pending close reclaim_processed_entries
    released_pending count_pending minimum_cursor least unwrap_or release
told_ended = refl

received_in_order_example :
    (run_heard 0 (new ℕ 2, []) half_read ≡ take 1 (after half_read).1)
    × (1 ≤ length (after half_read).1)
received_in_order_example = received_in_order 2 half_read 0 1 half_way

received_all_example : run_heard 0 (new ℕ 2, []) all_read ≡ (after all_read).1
received_all_example = received_all 2 all_read 0 2 all_the_way told_ended

reading_differs : reading 1 ≢ pending
reading_differs e = ground (arith, e)

poll_safe_example : (poll_next 0 (after half_read).0).0 ≢ panicked
poll_safe_example = poll_safe 2 half_read 0 (reading 1) half_way reading_differs

subtractions_safe_example :
    let s = (after half_read).0 in
    (s.base_cursor ≤ unwrap_or (s.tail_cursor + 1) (minimum_cursor s.readers))
    × (s.base_cursor ≤ unwrap_or s.tail_cursor (minimum_cursor (released_pending s.readers)))
    × ((i : ℕ)
        → s.base_cursor ≤ unwrap_or s.tail_cursor (minimum_cursor (set_slot s.readers i released)))
    × (count_pending s.readers ≤ s.retaining_readers)
    × ((i : ℕ) (r : ReaderSlot)
        → get_elem? s.readers i ≡ some r
        → r ≢ released
        → 1 ≤ s.retaining_readers)
    × ((i next : ℕ) → get_elem? s.readers i ≡ some (reading next) → s.base_cursor ≤ next)
subtractions_safe_example = subtractions_safe 2 half_read

run-IsConsistent_example : IsConsistent (after all_read).0 (after all_read).1
run-IsConsistent_example = run-IsConsistent 2 all_read
