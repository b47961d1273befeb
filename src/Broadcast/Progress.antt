-- ===== src/Broadcast/Progress.antt =====
-- How a consumer of a broadcast queue advances with each call: src/execution_plans/broadcast.rs.
use datafusion_distributed.Prelude.{
  ℕ, suc, ◌+◌, ◌≡◌, refl, ap, sym, subst, ◌∙◌, Bool, true, false, List, [], ◌∷◌, ◌++◌, Option, some,
  none, get_elem?, take, arith, if◌then◌else◌, ◌==◌, inl, inr, Bool-cases, ==→eq, get_elem?-below,
}
use datafusion_distributed.Prelude.Cuts.{take-suc}
use datafusion_distributed.Broadcast.{
  ReaderSlot, pending, released, reading, BroadcastShared, Poll, ready, ended, waiting, panicked,
  Call, pushes, closes, releases_pending, claims, polls, releases, set_slot,
  reclaim_processed_entries, push, close, claim, cancel_if_unread, release_pending, release,
  poll_slot, poll_next,
}
use datafusion_distributed.Broadcast.Cursors.{get_elem?-set_slot, set_slot_other}
use datafusion_distributed.Broadcast.Invariant.{IsConsistent, taken}
use datafusion_distributed.Broadcast.Runs.{step, poll_reading}
use datafusion_distributed.Broadcast.Slots.{
  HasRead, HasRead-taken, readers-push, HasRead-released_pending, claim-HasRead, release-HasRead,
}

-- The value that a poll gives, if it gives one.
abbrev pub value_of : {T : Type 0} → Poll T → List T
value_of (ready v) = v ∷ []
value_of ended = []
value_of waiting = []
value_of panicked = []

module _ {T : Type 0} where
  -- What consumer `i` is given by a call.
  unfoldable pub heard : ℕ → Call T → BroadcastShared T → List T
  heard i (polls j) s = if j == i then value_of (poll_next j s).0 else []
  heard i (pushes v) s = []
  heard i closes s = []
  heard i releases_pending s = []
  heard i (claims j) s = []
  heard i (releases j) s = []

  unfoldable pub run_heard : ℕ → BroadcastShared T × List T → List (Call T) → List T
  run_heard i t [] = []
  run_heard i t (c ∷ cs) = heard i c t.0 ++ run_heard i (step c t) cs

  append_nil : (xs : List T) → xs ≡ xs ++ []
  append_nil [] = refl
  append_nil (x ∷ xs) = ap (λ ys. x ∷ ys) (append_nil xs)

  -- Where nothing is given, what has been given stays.
  quiet :
      (b : Bool) (o : Option ReaderSlot) (got h : List T)
      → HasRead o got h
      → HasRead o (got ++ (if b then [] else [])) h
  quiet true o got h x = subst (λ g. HasRead o g h) (append_nil got) x
  quiet false o got h x = subst (λ g. HasRead o g h) (append_nil got) x

  given :
      (rs : List ReaderSlot) (i j k : ℕ) (v : T) (got h : List T)
      → get_elem? rs j ≡ some (reading k)
      → get_elem? h k ≡ some v
      → HasRead (get_elem? rs i) got h
      → HasRead
          (get_elem? (set_slot rs j (reading (k + 1))) i)
          (got ++ (if j == i then v ∷ [] else []))
          h
  unfolding HasRead
  given rs i j k v got h at found x = elim (Bool-cases (j == i)) [
    | inl e ↦
        let same = ==→eq j i e in
        let before : HasRead (some (reading k)) got h =
          subst (λ o. HasRead o got h) (ap (get_elem? rs) (sym same) ∙ at) x in
        let slot : get_elem? (set_slot rs j (reading (k + 1))) i ≡ some (reading (k + 1)) =
          ap (get_elem? (set_slot rs j (reading (k + 1)))) (sym same)
          ∙ get_elem?-set_slot rs j (reading k) (reading (k + 1)) at in
        let grown : got ++ (v ∷ []) ≡ take (k + 1) h =
          ap (λ g. g ++ (v ∷ [])) before.0
          ∙ (sym (take-suc k v h found)
              ∙ ap (λ n. take n h) {x = suc k} {y = k + 1} (omega arith)) in
        rw (e, slot) (grown, omega (arith, get_elem?-below h k v found))
    | inr e ↦
        rw (e, set_slot_other rs j i (reading (k + 1)) (ground arith))
          (subst (λ g. HasRead (get_elem? rs i) g h) (append_nil got) x)
  ]

  full :
      (b : Bool) (s : BroadcastShared T) (i j : ℕ) (got h : List T)
      → HasRead (get_elem? s.readers i) got h
      → let r =
          if◌then◌else◌ {A = Poll T × BroadcastShared T} b (ended, release j s) (waiting, s) in
        HasRead (get_elem? r.1.readers i) (got ++ (if j == i then value_of r.0 else [])) h
  unfolding release
  full true s i j got h x =
      quiet (j == i) _ got h (release-HasRead s i j (get_elem? s.readers j) got h refl x)
  full false s i j got h x = quiet (j == i) _ got h x

  poll-HasRead :
      (s : BroadcastShared T) (i j : ℕ) (o : Option ReaderSlot) (got h : List T)
      → get_elem? s.readers j ≡ o
      → IsConsistent s h
      → HasRead (get_elem? s.readers i) got h
      → HasRead
          (get_elem? (poll_slot o j s).1.readers i)
          (got ++ (if j == i then value_of (poll_slot o j s).0 else []))
          h
  unfolding poll_slot poll_next
  poll-HasRead s i j none got h at c x = quiet (j == i) _ got h x
  poll-HasRead s i j (some pending) got h at c x = quiet (j == i) _ got h x
  poll-HasRead s i j (some released) got h at c x = quiet (j == i) _ got h x
  poll-HasRead s i j (some (reading k)) got h at c x =
      let Kept : Poll T × BroadcastShared T → Type 0 =
        λ r. HasRead (get_elem? r.1.readers i) (got ++ (if j == i then value_of r.0 else [])) h in
      let same : poll_next j s ≡ poll_slot (some (reading k)) j s = ap (λ o. poll_slot o j s) at in
      elim (poll_reading s h j k c at) [
        | inl (v, found, e) ↦ subst Kept (sym e ∙ same) (given s.readers i j k v got h at found x)
        | inr (all, e) ↦ subst Kept (sym e ∙ same) (full s.closed s i j got h x)
      ]

  pub step-HasRead :
      (c : Call T) (s : BroadcastShared T) (i : ℕ) (got h : List T)
      → IsConsistent s h
      → HasRead (get_elem? s.readers i) got h
      → let t = step c (s, h) in HasRead (get_elem? t.0.readers i) (got ++ heard i c s) t.1
  unfolding step heard close claim release release_pending cancel_if_unread
      reclaim_processed_entries poll_next
  step-HasRead (pushes v) s i got h k x =
      subst (λ rs. HasRead (get_elem? rs i) (got ++ []) (taken (push v s).0 v h))
        (sym (readers-push s v))
        (quiet true _ got (taken (push v s).0 v h) (HasRead-taken _ got h (push v s).0 v x))
  step-HasRead closes s i got h k x = quiet true _ got h x
  step-HasRead releases_pending s i got h k x =
      quiet true _ got h (HasRead-released_pending s.readers i got h x)
  step-HasRead (claims j) s i got h k x =
      quiet true _ got h (claim-HasRead s i j (get_elem? s.readers j) got h refl x)
  step-HasRead (polls j) s i got h k x = poll-HasRead s i j (get_elem? s.readers j) got h refl k x
  step-HasRead (releases j) s i got h k x =
      quiet true _ got h (release-HasRead s i j (get_elem? s.readers j) got h refl x)
