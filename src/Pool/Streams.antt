-- ===== src/Pool/Streams.antt =====
-- No stream is kept for a reader of a connection pool that has gone
-- (src/worker/worker_connection_pool.rs).
use datafusion_distributed.Prelude.{
  ℕ, ◌-◌, ◌≡◌, subst, true, false, List, [], ◌∷◌, some, Result, ok, err, ltb, ◌==◌, length, if-elim,
  All,
}
use datafusion_distributed.Pool.{
  Key, StreamSlot, Setup, connecting, connected, failed, StreamGroup, Call, executes, sets_up,
  polls, drops, PoolError, worker_failed, stream_count, claim_at, claim_slot, claimed_group, fill,
  set_up_group, set_up_once, take_connected, run, no_stream, is_connecting, new,
}
use datafusion_distributed.Pool.Claims.{slots_of}
use datafusion_distributed.Pool.Slots.{
  IsReleased, replicate-IsReleased, fill-IsReleased, take_at-IsReleased, claim_at-IsReleased,
}
use datafusion_distributed.Pool.Groups.{Fits, Keeps, run-Fits}

module _ {S E : Type 0} where
  pub claimed_group-slots :
      (k : Key) (target : ℕ) (g : StreamGroup S E) (P : List (StreamSlot S) → Type 0)
      → P g.slots
      → P (slots_of E g.slots (claim_at g.slots (target - k.first)))
      → P (claimed_group g (claim_slot k target g)).slots
  unfolding claimed_group claim_slot
  claimed_group-slots k target g P old new =
      if-elim (λ (r : Result (PoolError E) (List (StreamSlot S))). P (claimed_group g r).slots)
        (ltb target k.first) {x = err no_stream} {y = claim_at g.slots (target - k.first)} old
        (elim (claim_at {E = E} g.slots (target - k.first))
            as (λ r. P (slots_of E g.slots r) → P (claimed_group g r).slots) [
              | ok ts ↦ λ p. p
              | err e ↦ λ p. p
            ]
          new)

  set_up_once-slots :
      (answer : Result E (List S)) (g : StreamGroup S E) (P : List (StreamSlot S) → Type 0)
      → P g.slots
      → ((xs : List S) → P (fill g.slots xs))
      → P (set_up_once answer g).slots
  unfolding set_up_once set_up_group
  set_up_once-slots (err e) g P old new =
      if-elim (λ (r : StreamGroup S E). P r.slots) (is_connecting g.setup)
        {x = record g { setup = failed (worker_failed e) }} {y = g} old old
  set_up_once-slots (ok xs) g P old new =
      if-elim (λ (r : StreamGroup S E). P r.slots) (is_connecting g.setup)
        {x = set_up_group (ok xs) g} {y = g}
        (if-elim (λ (r : StreamGroup S E). P r.slots) (length xs == length g.slots)
          {x = record { slots = fill g.slots xs; setup = connected }}
          {y = record g { setup = failed stream_count }} (new xs) old)
        old

  abbrev Released : StreamGroup S E → Type 0
  Released g = All IsReleased g.slots

  Released-take :
      (j : ℕ) (g : StreamGroup S E) (u : Setup E) → Released g → Released (take_connected j g u)
  unfolding take_connected
  Released-take j g connecting h = h
  Released-take j g (failed e) h = h
  Released-take j g connected h = take_at-IsReleased false g.slots j h

  Keeps-Released : (k : Key) (c : Call S E) → Keeps Released k c
  Keeps-Released k (executes w j target) = λ g h.
      claimed_group-slots j target g (All IsReleased) h
        (claim_at-IsReleased E g.slots (target - j.first) h)
  Keeps-Released k (sets_up j answer) =
      λ g h. set_up_once-slots answer g (All IsReleased) h (λ xs. fill-IsReleased g.slots xs h)
  Keeps-Released k (polls h) = λ e g a. Released-take h.index g g.setup a
  Keeps-Released k (drops h) = λ e g a. take_at-IsReleased true g.slots h.index a

  all-Keeps : (k : Key) (cs : List (Call S E)) → All (Keeps Released k) cs
  all-Keeps k [] = tt
  all-Keeps k (c ∷ cs) = (Keeps-Released k c, all-Keeps k cs)

  -- However calls follow one another, a slot whose reader has gone holds no stream, so that the
  -- worker's stream for a reader that goes is dropped, before its connection is set up or after.
  pub released :
      (n : ℕ) (cs : List (Call S E)) (k : Key) (g : StreamGroup S E)
      → (run (new n) cs).groups k ≡ some g
      → All IsReleased g.slots
  unfolding new
  released n cs k g e = subst (Fits Released k) e (
      run-Fits Released k cs (new n) (all-Keeps k cs) (replicate-IsReleased S (k.last - k.first))
        tt)
