-- ===== src/Broadcast/Slots.antt =====
-- What a reader has been given, by its slot, and the calls that give nothing:
-- src/execution_plans/broadcast.rs.
use datafusion_distributed.Prelude.{
  ℕ, zero, suc, ◌≤◌, ◌≡◌, ap, sym, subst, ◌∙◌, Bool, true, false, List, [], ◌∷◌, ◌++◌, Option, some,
  none, get_elem?, length, length-append, take, arith, ◌==◌, inl, inr, Bool-cases, ==→eq,
}
use datafusion_distributed.Prelude.Cuts.{take-append}
use datafusion_distributed.Broadcast.{
  ReaderSlot, pending, released, reading, BroadcastShared, set_slot, released_pending,
  reclaim_processed_entries, push, claim_slot, cancel_if_unread, release_slot,
}
use datafusion_distributed.Broadcast.Cursors.{get_elem?-set_slot, set_slot_other}
use datafusion_distributed.Broadcast.Invariant.{taken}

module _ {T : Type 0} where
  -- `got` are the values that a consumer in this slot has been given of those pushed.
  unfoldable pub HasRead : Option ReaderSlot → (got pushed : List T) → Type 0
  HasRead none got h = got ≡ []
  HasRead (some pending) got h = got ≡ []
  HasRead (some (reading k)) got h = (got ≡ take k h) × (k ≤ length h)
  HasRead (some released) got h = (m : ℕ) × (got ≡ take m h) × (m ≤ length h)

  pub HasRead-append :
      (o : Option ReaderSlot) (got h ys : List T) → HasRead o got h → HasRead o got (h ++ ys)
  unfolding HasRead
  HasRead-append none got h ys r = r
  HasRead-append (some pending) got h ys r = r
  HasRead-append (some (reading k)) got h ys r =
      (r.0 ∙ sym (take-append k h ys r.1), omega (arith, r.1, length-append h ys))
  HasRead-append (some released) got h ys r =
      (r.0, r.1 ∙ sym (take-append r.0 h ys r.2), omega (arith, r.2, length-append h ys))

  pub HasRead-taken :
      (o : Option ReaderSlot) (got h : List T) (b : Bool) (v : T)
      → HasRead o got h
      → HasRead o got (taken b v h)
  HasRead-taken o got h true v r = HasRead-append o got h (v ∷ []) r
  HasRead-taken o got h false v r = r

  -- A reader that is released keeps what it has been given.
  pub HasRead-released :
      (r : ReaderSlot) (got h : List T) → HasRead (some r) got h → HasRead (some released) got h
  unfolding HasRead
  HasRead-released pending got h r = (0, r, omega arith)
  HasRead-released (reading k) got h r = (k, r.0, r.1)
  HasRead-released released got h r = r

  pub HasRead-started :
      (got h : List T) → HasRead (some pending) got h → HasRead (some (reading 0)) got h
  unfolding HasRead
  HasRead-started got h r = (r, omega arith)

  pub readers-push : (s : BroadcastShared T) (v : T) → (push v s).1.readers ≡ s.readers
  unfolding push reclaim_processed_entries
  readers-push s v = ground arith

  pub HasRead-released_pending :
      (rs : List ReaderSlot) (i : ℕ) (got h : List T)
      → HasRead (get_elem? rs i) got h
      → HasRead (get_elem? (released_pending rs) i) got h
  unfolding released_pending
  HasRead-released_pending [] i got h r = r
  HasRead-released_pending (pending ∷ rs) zero got h r = HasRead-released pending got h r
  HasRead-released_pending (released ∷ rs) zero got h r = r
  HasRead-released_pending (reading k ∷ rs) zero got h r = r
  HasRead-released_pending (pending ∷ rs) (suc i) got h r = HasRead-released_pending rs i got h r
  HasRead-released_pending (released ∷ rs) (suc i) got h r = HasRead-released_pending rs i got h r
  HasRead-released_pending (reading k ∷ rs) (suc i) got h r = HasRead-released_pending rs i got h r

  -- A reader may move to a slot in which it has read as much.
  pub HasRead-set_slot :
      (rs : List ReaderSlot) (i j : ℕ) (old r : ReaderSlot) (got h : List T)
      → get_elem? rs j ≡ some old
      → (HasRead (some old) got h → HasRead (some r) got h)
      → HasRead (get_elem? rs i) got h
      → HasRead (get_elem? (set_slot rs j r) i) got h
  HasRead-set_slot rs i j old r got h at f x = elim (Bool-cases (j == i)) [
    | inl e ↦
        let same = ==→eq j i e in
        subst (λ n. HasRead (get_elem? (set_slot rs j r) n) got h) same
          (subst (λ o. HasRead o got h) (sym (get_elem?-set_slot rs j old r at))
            (f (subst (λ o. HasRead o got h) (ap (get_elem? rs) (sym same) ∙ at) x)))
    | inr e ↦ subst (λ o. HasRead o got h) (sym (set_slot_other rs j i r (ground arith))) x
  ]

  pub claim-HasRead :
      (s : BroadcastShared T) (i j : ℕ) (o : Option ReaderSlot) (got h : List T)
      → get_elem? s.readers j ≡ o
      → HasRead (get_elem? s.readers i) got h
      → HasRead (get_elem? (claim_slot o j s).1.readers i) got h
  unfolding claim_slot
  claim-HasRead s i j (some pending) got h at x =
      HasRead-set_slot s.readers i j pending (reading 0) got h at (HasRead-started got h) x
  claim-HasRead s i j none got h at x = x
  claim-HasRead s i j (some (reading k)) got h at x = x
  claim-HasRead s i j (some released) got h at x = x

  pub release-HasRead :
      (s : BroadcastShared T) (i j : ℕ) (o : Option ReaderSlot) (got h : List T)
      → get_elem? s.readers j ≡ o
      → HasRead (get_elem? s.readers i) got h
      → HasRead (get_elem? (release_slot o j s).readers i) got h
  unfolding release_slot reclaim_processed_entries cancel_if_unread
  release-HasRead s i j (some pending) got h at x =
      HasRead-set_slot s.readers i j pending released got h at (HasRead-released pending got h) x
  release-HasRead s i j (some (reading k)) got h at x =
      HasRead-set_slot s.readers i j (reading k) released got h at
        (HasRead-released (reading k) got h) x
  release-HasRead s i j none got h at x = x
  release-HasRead s i j (some released) got h at x = x
