-- ===== src/Broadcast/Invariant.antt =====
-- What every call keeps of a broadcast queue: src/execution_plans/broadcast.rs.
use datafusion_distributed.Prelude.{
  ℕ, ◌+◌, ◌-◌, ◌%◌, ◌≤◌, ◌≡◌, refl, ap, sym, ◌∙◌, Bool, true, false, List, [], ◌∷◌, ◌++◌, Option,
  some, none, All, get_elem?, length, length-append, drop, arith, if◌then◌else◌, ◌==◌,
}
use datafusion_distributed.Prelude.Cuts.{drop-append, drop-drop}
use datafusion_distributed.Broadcast.{
  ReaderSlot, pending, released, reading, BroadcastShared, reclaim_interval, set_slot,
  minimum_cursor, unwrap_or, released_pending, reclaim_processed_entries, push, close, claim_slot,
  cancel_if_unread, release_pending, release_slot,
}
use datafusion_distributed.Broadcast.Cursors.{
  SlotFits, bit, count_retaining, minimum-bounds, SlotFits-minimum, SlotFits-tail, All-set_slot,
  All-at, SlotFits-released_pending, count-set_slot, count-released_pending,
}

-- `pushed` are all values that the queue has taken. It still holds those from its base on, each
-- reader that is not released fits between the base and the tail, and the readers are counted.
pub record IsConsistent {T : Type 0} (s : BroadcastShared T) (pushed : List T) : Type 0 where
  pub tail : s.tail_cursor ≡ length pushed
  pub base : s.base_cursor ≤ s.tail_cursor
  pub entries : s.entries ≡ drop s.base_cursor pushed
  pub readers : All (SlotFits s.base_cursor s.tail_cursor) s.readers
  pub retaining : s.retaining_readers ≡ count_retaining s.readers

module _ {T : Type 0} where
  pub reclaim-IsConsistent :
      (s : BroadcastShared T) (h : List T)
      → IsConsistent s h
      → IsConsistent (reclaim_processed_entries s) h
  unfolding reclaim_processed_entries
  reclaim-IsConsistent s h c =
      let m = unwrap_or s.tail_cursor (minimum_cursor s.readers) in
      let (low, high) = minimum-bounds s.readers s.base_cursor s.tail_cursor c.base c.readers in
      record {
        tail = c.tail;
        base = high;
        entries =
            ap (drop (m - s.base_cursor)) c.entries
            ∙ (drop-drop (m - s.base_cursor) s.base_cursor h
                ∙ ap (λ k. drop k h) {x = s.base_cursor + (m - s.base_cursor)} {y = m}
                    (omega (arith, low)));
        readers = SlotFits-minimum s.readers s.base_cursor s.tail_cursor m (omega arith) c.readers;
        retaining = c.retaining;
      }

  -- with other readers, of which the given number is retaining
  pub with_readers :
      (s : BroadcastShared T) (h : List T) (rs : List ReaderSlot) (n : ℕ)
      → IsConsistent s h
      → All (SlotFits s.base_cursor s.tail_cursor) rs
      → n ≡ count_retaining rs
      → IsConsistent (record s { readers = rs; retaining_readers = n }) h
  with_readers s h rs n c f e = record {
    tail = c.tail;
    base = c.base;
    entries = c.entries;
    readers = f;
    retaining = e;
  }

  pub cancel-IsConsistent :
      (s : BroadcastShared T) (h : List T) → IsConsistent s h → IsConsistent (cancel_if_unread s) h
  unfolding cancel_if_unread
  cancel-IsConsistent s h c = record {
    tail = c.tail;
    base = c.base;
    entries = c.entries;
    readers = c.readers;
    retaining = c.retaining;
  }

  -- What a push adds to the values that the queue has taken.
  abbrev pub taken : Bool → T → List T → List T
  taken b v h = if b then h ++ (v ∷ []) else h

  pub appended :
      (s : BroadcastShared T) (h : List T) (v : T)
      → IsConsistent s h
      → IsConsistent
          (record s { entries = s.entries ++ (v ∷ []); tail_cursor = s.tail_cursor + 1 })
          (h ++ (v ∷ []))
  appended s h v c = record {
    tail = omega (arith, c.tail, length-append h (v ∷ []));
    base = omega (arith, c.base);
    entries =
        ap (λ es. es ++ (v ∷ [])) c.entries
        ∙ sym (drop-append s.base_cursor h (v ∷ []) (omega (arith, c.base, c.tail)));
    readers = SlotFits-tail s.readers s.base_cursor s.tail_cursor c.readers;
    retaining = c.retaining;
  }

  pub either :
      (b : Bool) (x y : BroadcastShared T) (h : List T)
      → IsConsistent x h
      → IsConsistent y h
      → IsConsistent (if b then x else y) h
  either true x y h c d = c
  either false x y h c d = d

  pub either_taken :
      (b : Bool) (x y : Bool × BroadcastShared T) (v : T) (h : List T)
      → IsConsistent x.1 (taken x.0 v h)
      → IsConsistent y.1 (taken y.0 v h)
      → IsConsistent (if b then x else y).1 (taken (if b then x else y).0 v h)
  either_taken true x y v h c d = c
  either_taken false x y v h c d = d

  pub push-IsConsistent :
      (s : BroadcastShared T) (h : List T) (v : T)
      → IsConsistent s h
      → IsConsistent (push v s).1 (taken (push v s).0 v h)
  unfolding push
  push-IsConsistent s h v c =
      let d = appended s h v c in
      either_taken (s.retaining_readers == 0) _ _ v h c (
        either ((s.tail_cursor + 1) % reclaim_interval == 0) _ _ (h ++ (v ∷ []))
          (reclaim-IsConsistent _ (h ++ (v ∷ [])) d) d)

  pub close-IsConsistent :
      (s : BroadcastShared T) (h : List T) → IsConsistent s h → IsConsistent (close s) h
  unfolding close
  close-IsConsistent s h c = record {
    tail = c.tail;
    base = c.base;
    entries = c.entries;
    readers = c.readers;
    retaining = c.retaining;
  }

  -- One reader moves to a slot that fits and retains as much.
  pub moved :
      (s : BroadcastShared T) (h : List T) (i n : ℕ) (old r : ReaderSlot)
      → IsConsistent s h
      → get_elem? s.readers i ≡ some old
      → SlotFits s.base_cursor s.tail_cursor r
      → n + bit old ≡ s.retaining_readers + bit r
      → IsConsistent (record s { readers = set_slot s.readers i r; retaining_readers = n }) h
  moved s h i n old r c at fits e =
      with_readers s h (set_slot s.readers i r) n c
        (All-set_slot (SlotFits s.base_cursor s.tail_cursor) s.readers i r c.readers fits)
        (omega (arith, e, c.retaining, count-set_slot s.readers i old r at))

  pub claim_slot-IsConsistent :
      (s : BroadcastShared T) (h : List T) (i : ℕ) (o : Option ReaderSlot)
      → get_elem? s.readers i ≡ o
      → IsConsistent s h
      → IsConsistent (claim_slot o i s).1 h
  unfolding claim_slot SlotFits bit
  claim_slot-IsConsistent s h i (some pending) at c =
      let fits = All-at (SlotFits s.base_cursor s.tail_cursor) s.readers i pending c.readers at in
      moved s h i s.retaining_readers pending (reading 0) c at (omega (arith, fits), omega arith)
        refl
  claim_slot-IsConsistent s h i (some (reading k)) at c = c
  claim_slot-IsConsistent s h i (some released) at c = c
  claim_slot-IsConsistent s h i none at c = c

  pub release_slot-IsConsistent :
      (s : BroadcastShared T) (h : List T) (i : ℕ) (o : Option ReaderSlot)
      → get_elem? s.readers i ≡ o
      → IsConsistent s h
      → IsConsistent (release_slot o i s) h
  unfolding release_slot SlotFits bit
  release_slot-IsConsistent s h i none at c = c
  release_slot-IsConsistent s h i (some released) at c = c
  release_slot-IsConsistent s h i (some pending) at c = cancel-IsConsistent _ h (
      reclaim-IsConsistent _ h (
        moved s h i (s.retaining_readers - 1) pending released c at tt
          (omega (arith, c.retaining, count-set_slot s.readers i pending released at))))
  release_slot-IsConsistent s h i (some (reading k)) at c = cancel-IsConsistent _ h (
      reclaim-IsConsistent _ h (
        moved s h i (s.retaining_readers - 1) (reading k) released c at tt
          (omega (arith, c.retaining, count-set_slot s.readers i (reading k) released at))))

  pub release_pending-IsConsistent :
      (s : BroadcastShared T) (h : List T) → IsConsistent s h → IsConsistent (release_pending s) h
  unfolding release_pending
  release_pending-IsConsistent s h c = cancel-IsConsistent _ h (
      reclaim-IsConsistent _ h (
        with_readers s h (released_pending s.readers) _ c
          (SlotFits-released_pending s.readers s.base_cursor s.tail_cursor c.readers)
          (omega (arith, c.retaining, count-released_pending s.readers))))
