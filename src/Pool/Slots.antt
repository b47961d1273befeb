-- ===== src/Pool/Slots.antt =====
-- The slots of a group of a connection pool (src/worker/worker_connection_pool.rs): which hold a
-- stream, and what a call does to that.
use datafusion_distributed.Prelude.{
  ℕ, zero, suc, ◌≡◌, ◌≢◌, refl, ap, sym, subst, Bool, true, false, List, [], ◌∷◌, none, some, ok,
  err, ◌>>=◌, if◌then◌else◌, replicate, get_elem?, arith, if-elim, All,
}
use datafusion_distributed.Pool.{
  StreamSlot, already_claimed, free, claim_at, fill, take_at, taken_at, streams,
}
use datafusion_distributed.Pool.Claims.{slots_of}

module _ {S : Type 0} where
  -- A slot whose reader has gone holds no stream.
  abbrev pub IsReleased : StreamSlot S → Type 0
  IsReleased s = s.closed ≡ true → s.stream ≡ none

  pub fill-IsReleased :
      (ss : List (StreamSlot S)) (xs : List S) → All IsReleased ss → All IsReleased (fill ss xs)
  unfolding fill
  fill-IsReleased [] xs a = tt
  fill-IsReleased (s ∷ ss) [] a = a
  fill-IsReleased (s ∷ ss) (x ∷ xs) a = (
    elim s.closed
          as (λ b. s.closed ≡ b → IsReleased (if b then s else record s { stream = some x })) [
            | true ↦ λ e. a.0
            | false ↦ λ e c. absurd (ground (arith, e, c))
          ]
        refl,
    fill-IsReleased ss xs a.1,
  )

  pub take_at-IsReleased :
      (close : Bool) (ss : List (StreamSlot S)) (i : ℕ)
      → All IsReleased ss
      → All IsReleased (take_at close ss i)
  unfolding take_at
  take_at-IsReleased close [] i a = tt
  take_at-IsReleased close (s ∷ ss) zero a = (λ e. refl, a.1)
  take_at-IsReleased close (s ∷ ss) (suc i) a = (a.0, take_at-IsReleased close ss i a.1)

  -- The slot of an index holds a stream.
  abbrev pub Holds : S → List (StreamSlot S) → ℕ → Type 0
  Holds x [] i = ⊥
  Holds x (s ∷ ss) zero = s.stream ≡ some x
  Holds x (s ∷ ss) (suc i) = Holds x ss i

  -- The slot of an index is there, and its reader has not gone.
  abbrev pub IsOpen : List (StreamSlot S) → ℕ → Type 0
  IsOpen [] i = ⊥
  IsOpen (s ∷ ss) zero = s.closed ≡ false
  IsOpen (s ∷ ss) (suc i) = IsOpen ss i

  pub fill-Holds :
      (ss : List (StreamSlot S)) (xs : List S) (i : ℕ) (x : S)
      → IsOpen ss i
      → get_elem? xs i ≡ some x
      → Holds x (fill ss xs) i
  unfolding fill
  fill-Holds [] xs i x o e = o
  fill-Holds (s ∷ ss) [] i x o e = ground (arith, e)
  fill-Holds (s ∷ ss) (y ∷ xs) zero x o e = ground (arith, o, e)
  fill-Holds (s ∷ ss) (y ∷ xs) (suc i) x o e = fill-Holds ss xs i x o e

  pub take_at-Holds :
      (close : Bool) (ss : List (StreamSlot S)) (i j : ℕ) (x : S)
      → i ≢ j
      → Holds x ss i
      → Holds x (take_at close ss j) i
  unfolding take_at
  take_at-Holds close [] i j x n h = h
  take_at-Holds close (s ∷ ss) zero zero x n h = absurd (n refl)
  take_at-Holds close (s ∷ ss) zero (suc j) x n h = h
  take_at-Holds close (s ∷ ss) (suc i) zero x n h = h
  take_at-Holds close (s ∷ ss) (suc i) (suc j) x n h =
      take_at-Holds close ss i j x (λ e. n (ap suc e)) h

  pub taken_at-Holds :
      (E : Type 0) (ss : List (StreamSlot S)) (i : ℕ) (x : S)
      → Holds x ss i
      → taken_at {E = E} ss i ≡ streams x
  unfolding taken_at
  taken_at-Holds E [] i x h = absurd h
  taken_at-Holds E (s ∷ ss) zero x h = rw h refl
  taken_at-Holds E (s ∷ ss) (suc i) x h = taken_at-Holds E ss i x h

pub replicate-IsReleased : (S : Type 0) (n : ℕ) → All IsReleased (replicate n (free {S = S}))
replicate-IsReleased S zero = tt
replicate-IsReleased S (suc n) = (λ e. refl, replicate-IsReleased S n)

module _ {S : Type 0} (E : Type 0) where
  slots_of-suc :
      (s : StreamSlot S) (ss : List (StreamSlot S)) (j : ℕ)
      → slots_of E (s ∷ ss) (claim_at (s ∷ ss) (suc j)) ≡ s ∷ slots_of E ss (claim_at ss j)
  unfolding claim_at
  slots_of-suc s ss j =
      elim (claim_at {E = E} ss j)
        as (λ r. slots_of E (s ∷ ss) (r >>= λ rest. ok (s ∷ rest)) ≡ s ∷ slots_of E ss r) [
          | ok rest ↦ refl
          | err e ↦ refl
        ]

  -- A claim changes none of the slots' streams.
  pub claim_at-IsReleased :
      (ss : List (StreamSlot S)) (j : ℕ)
      → All IsReleased ss
      → All IsReleased (slots_of E ss (claim_at ss j))
  unfolding claim_at
  claim_at-IsReleased [] j a = tt
  claim_at-IsReleased (s ∷ ss) zero a =
      if-elim (λ r. All IsReleased (slots_of E (s ∷ ss) r)) s.claimed {x = err already_claimed}
        {y = ok (record s { claimed = true } ∷ ss)} a a
  claim_at-IsReleased (s ∷ ss) (suc j) a =
      subst (All IsReleased) (sym (slots_of-suc s ss j)) (a.0, claim_at-IsReleased ss j a.1)

  pub claim_at-Holds :
      (ss : List (StreamSlot S)) (i j : ℕ) (x : S)
      → Holds x ss i
      → Holds x (slots_of E ss (claim_at ss j)) i
  unfolding claim_at
  claim_at-Holds [] i j x h = absurd h
  claim_at-Holds (s ∷ ss) zero zero x h =
      if-elim (λ r. Holds x (slots_of E (s ∷ ss) r) 0) s.claimed {x = err already_claimed}
        {y = ok (record s { claimed = true } ∷ ss)} h h
  claim_at-Holds (s ∷ ss) (suc i) zero x h =
      if-elim (λ r. Holds x (slots_of E (s ∷ ss) r) (suc i)) s.claimed {x = err already_claimed}
        {y = ok (record s { claimed = true } ∷ ss)} h h
  claim_at-Holds (s ∷ ss) zero (suc j) x h =
      subst (λ ts. Holds x ts 0) (sym (slots_of-suc s ss j)) h
  claim_at-Holds (s ∷ ss) (suc i) (suc j) x h =
      subst (λ ts. Holds x ts (suc i)) (sym (slots_of-suc s ss j)) (claim_at-Holds ss i j x h)
