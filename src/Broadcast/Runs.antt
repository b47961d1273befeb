-- ===== src/Broadcast/Runs.antt =====
-- Polls and runs of calls on a broadcast queue: src/execution_plans/broadcast.rs.
use datafusion_distributed.Prelude.{
  ℕ, ◌+◌, ◌-◌, ◌≡◌, refl, ap, sym, ◌∙◌, Bool, true, false, List, [], ◌∷◌, Option, some, none,
  get_elem?, length, arith, if◌then◌else◌, ltb, inl, inr, ◌⊎◌, subst, Bool-cases, ltb→lt, ltb→le,
  le→ltb, below-get_elem?, get_elem?-below,
}
use datafusion_distributed.Prelude.Cuts.{get_elem?-drop}
use datafusion_distributed.Broadcast.{
  ReaderSlot, pending, released, reading, BroadcastShared, Poll, ready, ended, waiting, Call,
  pushes, closes, releases_pending, claims, polls, releases, set_slot, new, push, close, claim,
  release_pending, release, entry_at, poll_slot, poll_next,
}
use datafusion_distributed.Broadcast.Cursors.{
  SlotFits, bit, All-at, replicate-SlotFits, count-replicate,
}
use datafusion_distributed.Broadcast.Invariant.{
  IsConsistent, taken, push-IsConsistent, close-IsConsistent, moved, claim_slot-IsConsistent,
  release_slot-IsConsistent, release_pending-IsConsistent,
}

module _ {T : Type 0} where
  -- A reader of a consistent queue is given the next value that it has not read, whatever has been
  -- reclaimed; when it has read all of them, it ends if the queue is closed and waits if not.
  pub poll_reading :
      (s : BroadcastShared T) (h : List T) (i k : ℕ)
      → IsConsistent s h
      → get_elem? s.readers i ≡ some (reading k)
      → ((v : T) × (get_elem? h k ≡ some v)
          × (poll_next i s
              ≡ (ready v, record s { readers = set_slot s.readers i (reading (k + 1)) })))
        ⊎ ((k ≡ length h)
            × (poll_next i s ≡ (if s.closed then (ended, release i s) else (waiting, s))))
  unfolding poll_next poll_slot entry_at SlotFits
  poll_reading s h i k c at =
      let fits =
        All-at (SlotFits s.base_cursor s.tail_cursor) s.readers i (reading k) c.readers at in
      elim (Bool-cases (ltb k s.tail_cursor)) [
        | inl below ↦
            let (v, found) =
              below-get_elem? h k (omega (arith, ltb→lt k s.tail_cursor below, c.tail)) in
            let kept : get_elem? s.entries (k - s.base_cursor) ≡ some v =
              ap (λ es. get_elem? es (k - s.base_cursor)) c.entries
              ∙ (get_elem?-drop s.base_cursor (k - s.base_cursor) h
                  ∙ (ap (get_elem? h) {x = s.base_cursor + (k - s.base_cursor)} {y = k}
                        (omega (arith, fits))
                      ∙ found)) in
            inl (v, found, rw (at, below, le→ltb k s.base_cursor fits.0, kept) refl)
        | inr above ↦
            inr (omega (arith, fits, ltb→le k s.tail_cursor above, c.tail), rw (at, above) refl)
      ]

  ended_or_waiting :
      (b : Bool) (s : BroadcastShared T) (h : List T) (i : ℕ)
      → IsConsistent s h
      → IsConsistent
          (if◌then◌else◌ {A = Poll T × BroadcastShared T} b (ended, release i s) (waiting, s)).1
          h
  unfolding release
  ended_or_waiting true s h i c = release_slot-IsConsistent s h i (get_elem? s.readers i) refl c
  ended_or_waiting false s h i c = c

  poll_slot-IsConsistent :
      (s : BroadcastShared T) (h : List T) (i : ℕ) (o : Option ReaderSlot)
      → get_elem? s.readers i ≡ o
      → IsConsistent s h
      → IsConsistent (poll_slot o i s).1 h
  unfolding poll_slot poll_next release SlotFits bit
  poll_slot-IsConsistent s h i none at c = c
  poll_slot-IsConsistent s h i (some pending) at c = c
  poll_slot-IsConsistent s h i (some released) at c = c
  poll_slot-IsConsistent s h i (some (reading k)) at c =
      let fits =
        All-at (SlotFits s.base_cursor s.tail_cursor) s.readers i (reading k) c.readers at in
      let same : poll_next i s ≡ poll_slot (some (reading k)) i s = ap (λ o. poll_slot o i s) at in
      elim (poll_reading s h i k c at) [
        | inl (v, found, e) ↦
            subst (λ r. IsConsistent r.1 h) (sym e ∙ same)
              (moved s h i s.retaining_readers (reading k) (reading (k + 1)) c at
                (omega (arith, fits), omega (arith, get_elem?-below h k v found, c.tail)) refl)
        | inr (full, e) ↦
            subst (λ r. IsConsistent r.1 h) (sym e ∙ same) (ended_or_waiting s.closed s h i c)
      ]

  pub new-IsConsistent : (n : ℕ) → IsConsistent (new T n) []
  unfolding new
  new-IsConsistent n = record {
    tail = refl;
    base = omega arith;
    entries = refl;
    readers = replicate-SlotFits n;
    retaining = sym (count-replicate n);
  }

  -- What a call does to the queue and to the values that it has taken.
  unfoldable pub step : Call T → BroadcastShared T × List T → BroadcastShared T × List T
  step (pushes v) (s, h) = ((push v s).1, taken (push v s).0 v h)
  step closes (s, h) = (close s, h)
  step releases_pending (s, h) = (release_pending s, h)
  step (claims i) (s, h) = ((claim i s).1, h)
  step (polls i) (s, h) = ((poll_next i s).1, h)
  step (releases i) (s, h) = (release i s, h)

  unfoldable pub run : BroadcastShared T × List T → List (Call T) → BroadcastShared T × List T
  run t [] = t
  run t (c ∷ cs) = run (step c t) cs

  pub step-IsConsistent :
      (c : Call T) (s : BroadcastShared T) (h : List T)
      → IsConsistent s h
      → let t = step c (s, h) in IsConsistent t.0 t.1
  unfolding step claim poll_next release
  step-IsConsistent (pushes v) s h k = push-IsConsistent s h v k
  step-IsConsistent closes s h k = close-IsConsistent s h k
  step-IsConsistent releases_pending s h k = release_pending-IsConsistent s h k
  step-IsConsistent (claims i) s h k = claim_slot-IsConsistent s h i (get_elem? s.readers i) refl k
  step-IsConsistent (polls i) s h k = poll_slot-IsConsistent s h i (get_elem? s.readers i) refl k
  step-IsConsistent (releases i) s h k =
      release_slot-IsConsistent s h i (get_elem? s.readers i) refl k

  run-IsConsistent_from :
      (cs : List (Call T)) (s : BroadcastShared T) (h : List T)
      → IsConsistent s h
      → let t = run (s, h) cs in IsConsistent t.0 t.1
  unfolding run
  run-IsConsistent_from [] s h k = k
  run-IsConsistent_from (c ∷ cs) s h k =
      let t = step c (s, h) in run-IsConsistent_from cs t.0 t.1 (step-IsConsistent c s h k)

  -- After any calls on a new queue: it holds the values taken from its base on, no reader is behind
  -- the base or ahead of the tail, one that has not started keeps every value, and the number of
  -- readers that are not released is right.
  pub run-IsConsistent :
      (n : ℕ) (cs : List (Call T)) → let t = run (new T n, []) cs in IsConsistent t.0 t.1
  run-IsConsistent n cs = run-IsConsistent_from cs (new T n) [] (new-IsConsistent n)
