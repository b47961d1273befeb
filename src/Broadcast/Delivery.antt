-- ===== src/Broadcast/Delivery.antt =====
-- What a consumer of a broadcast queue has been given after any calls:
-- src/execution_plans/broadcast.rs.
use datafusion_distributed.Prelude.{
  ℕ, zero, suc, ◌≤◌, ◌≡◌, ◌≢◌, refl, ap, sym, subst, ◌∙◌, Bool, true, false, List, [], ◌∷◌, ◌++◌,
  some, get_elem?, length, take, arith, if◌then◌else◌, inl, inr, ◌+◌, All,
}
use datafusion_distributed.Prelude.Cuts.{take-length}
use datafusion_distributed.Broadcast.{
  ReaderSlot, pending, released, reading, BroadcastShared, Poll, ready, ended, waiting, panicked,
  Call, new, poll_next, poll_slot, minimum_cursor, unwrap_or, release, released_pending, set_slot,
  count_pending,
}
use datafusion_distributed.Broadcast.Cursors.{
  minimum-bounds, count-set_slot, bit, SlotFits, SlotFits-tail, SlotFits-released_pending,
  All-set_slot, All-at, count-released_pending,
}
use datafusion_distributed.Broadcast.Invariant.{IsConsistent}
use datafusion_distributed.Broadcast.Runs.{
  step, run, step-IsConsistent, run-IsConsistent, new-IsConsistent, poll_reading,
}
use datafusion_distributed.Broadcast.Slots.{HasRead}
use datafusion_distributed.Broadcast.Progress.{heard, run_heard, step-HasRead}

bit-one : (r : ReaderSlot) → r ≢ released → bit r ≡ 1
unfolding bit
bit-one pending p = refl
bit-one (reading k) p = refl
bit-one released p = absurd (p refl)

new-HasRead : (T : Type 0) (n i : ℕ) → HasRead {T = T} (get_elem? (new T n).readers i) [] []
unfolding HasRead new
new-HasRead T zero i = refl
new-HasRead T (suc n) zero = refl
new-HasRead T (suc n) (suc i) = new-HasRead T n i

-- The base is not above the least cursor of readers that fit, with the given tail.
least_above :
    (base tail : ℕ) (rs : List ReaderSlot)
    → base ≤ tail
    → All (SlotFits base tail) rs
    → base ≤ unwrap_or tail (minimum_cursor rs)
least_above base tail rs le fits = (minimum-bounds rs base tail le fits).0

module _ {T : Type 0} where
  append_assoc : (xs ys zs : List T) → (xs ++ ys) ++ zs ≡ xs ++ (ys ++ zs)
  append_assoc [] ys zs = refl
  append_assoc (x ∷ xs) ys zs = ap (λ t. x ∷ t) (append_assoc xs ys zs)

  append_nil : (xs : List T) → xs ≡ xs ++ []
  append_nil [] = refl
  append_nil (x ∷ xs) = ap (λ ys. x ∷ ys) (append_nil xs)

  run-HasRead_from :
      (cs : List (Call T)) (s : BroadcastShared T) (i : ℕ) (got h : List T)
      → IsConsistent s h
      → HasRead (get_elem? s.readers i) got h
      → let t = run (s, h) cs in
        HasRead (get_elem? t.0.readers i) (got ++ run_heard i (s, h) cs) t.1
  unfolding run run_heard
  run-HasRead_from [] s i got h k x =
      subst (λ g. HasRead (get_elem? s.readers i) g h) (append_nil got) x
  run-HasRead_from (c ∷ cs) s i got h k x =
      let t = step c (s, h) in
      let u = run t cs in
      subst (λ g. HasRead (get_elem? u.0.readers i) g u.1)
        (append_assoc got (heard i c s) (run_heard i t cs))
        (run-HasRead_from cs t.0 i (got ++ heard i c s) t.1 (step-IsConsistent c s h k)
          (step-HasRead c s i got h k x))

  -- After any calls on a new queue, a consumer that is reading has been given exactly the first
  -- values that the queue took, in their order, as many as its cursor says.
  pub received_in_order :
      (n : ℕ) (cs : List (Call T)) (i k : ℕ)
      → let t = run (new T n, []) cs in
        get_elem? t.0.readers i ≡ some (reading k)
        → (run_heard i (new T n, []) cs ≡ take k t.1) × (k ≤ length t.1)
  unfolding HasRead
  received_in_order n cs i k e =
      let t = run (new T n, []) cs in
      subst (λ o. HasRead o (run_heard i (new T n, []) cs) t.1) e
        (run-HasRead_from cs (new T n) i [] [] (new-IsConsistent n) (new-HasRead T n i))

  ready_differs :
      (v : T) (u : BroadcastShared T) (r : Poll T × BroadcastShared T)
      → r ≡ (ready v, u)
      → (r.0 ≢ ended) × (r.0 ≢ panicked)
  ready_differs v u r e =
      (λ f. not_ended (sym (ap (λ p. p.0) e) ∙ f), λ f. not_panicked (sym (ap (λ p. p.0) e) ∙ f))
    where
      not_ended : ready v ≢ ended
      not_ended e = ground (arith, e)

      not_panicked : ready v ≢ panicked
      not_panicked e = ground (arith, e)

  full_safe :
      (b : Bool) (s : BroadcastShared T) (i : ℕ)
      → (if◌then◌else◌ {A = Poll T × BroadcastShared T} b (ended, release i s) (waiting, s)).0
        ≢ panicked
  full_safe true s i e = ground (arith, e)
  full_safe false s i e = ground (arith, e)

  poll-safe :
      (s : BroadcastShared T) (h : List T) (i : ℕ) (r : ReaderSlot)
      → IsConsistent s h
      → get_elem? s.readers i ≡ some r
      → r ≢ pending
      → (poll_next i s).0 ≢ panicked
  unfolding poll_next poll_slot
  poll-safe s h i pending c e p f = p refl
  poll-safe s h i released c e p f = released_safe (subst (λ o. (poll_slot o i s).0 ≡ panicked) e f)
    where
      released_safe : ◌≢◌ {A = Poll T} ended panicked
      released_safe e = ground (arith, e)
  poll-safe s h i (reading k) c e p f = elim (poll_reading s h i k c e) [
    | inl (v, found, g) ↦ (ready_differs v _ _ g).1 f
    | inr (all, g) ↦ full_safe s.closed s i (sym (ap (λ x. x.0) g) ∙ f)
  ]

  -- When, after any calls on a new queue, a consumer that is reading is told that the queue has
  -- ended, it has been given every value that the queue took.
  pub received_all :
      (n : ℕ) (cs : List (Call T)) (i k : ℕ)
      → let t = run (new T n, []) cs in
        get_elem? t.0.readers i ≡ some (reading k)
        → (poll_next i t.0).0 ≡ ended
        → run_heard i (new T n, []) cs ≡ t.1
  received_all n cs i k e f =
      let t = run (new T n, []) cs in
      let r = received_in_order n cs i k e in
      elim (poll_reading t.0 t.1 i k (run-IsConsistent n cs) e) [
        | inl (v, found, g) ↦ absurd ((ready_differs v _ _ g).0 f)
        | inr (all, g) ↦ r.0 ∙ (ap (λ m. take m t.1) all ∙ take-length t.1)
      ]

  -- After any calls on a new queue, polling a consumer that has been claimed does not panic: no entry
  -- that it needs has been reclaimed.
  pub poll_safe :
      (n : ℕ) (cs : List (Call T)) (i : ℕ) (r : ReaderSlot)
      → let t = run (new T n, []) cs in
        get_elem? t.0.readers i ≡ some r → r ≢ pending → (poll_next i t.0).0 ≢ panicked
  poll_safe n cs i r e p =
      let t = run (new T n, []) cs in poll-safe t.0 t.1 i r (run-IsConsistent n cs) e p

  one_retained :
      (s : BroadcastShared T) (h : List T) (i : ℕ) (r : ReaderSlot)
      → IsConsistent s h
      → get_elem? s.readers i ≡ some r
      → r ≢ released
      → 1 ≤ s.retaining_readers
  unfolding bit
  one_retained s h i r c e p =
      omega (arith, c.retaining, count-set_slot s.readers i r released e, bit-one r p)

  -- After any calls on a new queue, the next call does not underflow where it subtracts. The base
  -- is not above the least cursor, or the tail where there is none, when a push has added its value,
  -- when the readers that have not started are released, or when any one reader is; the readers that
  -- have not started are at most the retained ones; where a reader is not released, one is retained;
  -- and a reader's cursor is not below the base.
  pub subtractions_safe :
      (n : ℕ) (cs : List (Call T))
      → let s = (run (new T n, []) cs).0 in
        (s.base_cursor ≤ unwrap_or (s.tail_cursor + 1) (minimum_cursor s.readers))
        × (s.base_cursor ≤ unwrap_or s.tail_cursor (minimum_cursor (released_pending s.readers)))
        × ((i : ℕ)
            → s.base_cursor
              ≤ unwrap_or s.tail_cursor (minimum_cursor (set_slot s.readers i released)))
        × (count_pending s.readers ≤ s.retaining_readers)
        × ((i : ℕ) (r : ReaderSlot)
            → get_elem? s.readers i ≡ some r
            → r ≢ released
            → 1 ≤ s.retaining_readers)
        × ((i next : ℕ) → get_elem? s.readers i ≡ some (reading next) → s.base_cursor ≤ next)
  unfolding SlotFits
  subtractions_safe n cs =
      let (s, h) = run (new T n, []) cs in
      let c = run-IsConsistent n cs in
      let base = s.base_cursor in
      let tail = s.tail_cursor in
      (
        least_above base (tail + 1) s.readers (omega (arith, c.base))
            (SlotFits-tail s.readers base tail c.readers),
        least_above base tail (released_pending s.readers) c.base
            (SlotFits-released_pending s.readers base tail c.readers),
        λ i.
            least_above base tail (set_slot s.readers i released) c.base
              (All-set_slot (SlotFits base tail) s.readers i released c.readers tt),
        omega (arith, c.retaining, count-released_pending s.readers),
        λ i r e p. one_retained s h i r c e p,
        λ i next e. (All-at (SlotFits base tail) s.readers i (reading next) c.readers e).0,
      )
