-- ===== src/Broadcast/Cursors.antt =====
-- The cursors of the readers of a broadcast queue (src/execution_plans/broadcast.rs).
use Prim.Native.Nat
use datafusion_distributed.Prelude.{
  ℕ, zero, suc, ◌+◌, ◌≤◌, ◌≡◌, ◌≢◌, refl, ap, subst, List, [], ◌∷◌, Option, some, none, All,
  get_elem?, replicate, arith,
}
use datafusion_distributed.Broadcast.{
  ReaderSlot, pending, released, reading, set_slot, least, minimum_cursor, unwrap_or,
  released_pending, count_pending,
}

-- A reader between the first kept entry and the last: one that has not started keeps them all.
unfoldable pub SlotFits : ℕ → ℕ → ReaderSlot → Type 0
SlotFits base tail pending = base ≡ 0
SlotFits base tail released = Unit
SlotFits base tail (reading c) = (base ≤ c) × (c ≤ tail)

unfoldable pub bit : ReaderSlot → ℕ
bit pending = 1
bit released = 0
bit (reading c) = 1

-- the readers that are not released
unfoldable pub count_retaining : List ReaderSlot → ℕ
count_retaining [] = 0
count_retaining (r ∷ rs) = bit r + count_retaining rs

unwrap_or-least :
    (n t : ℕ) (o : Option ℕ) → n ≤ t → unwrap_or t (least n o) ≡ Nat.min n (unwrap_or t o)
unfolding unwrap_or least
unwrap_or-least n t none h = omega arith
unwrap_or-least n t (some m) h = refl

-- The least cursor is one of the kept ones.
pub minimum-bounds :
    (rs : List ReaderSlot) (base tail : ℕ)
    → base ≤ tail
    → All (SlotFits base tail) rs
    → (base ≤ unwrap_or tail (minimum_cursor rs)) × (unwrap_or tail (minimum_cursor rs) ≤ tail)
unfolding SlotFits minimum_cursor unwrap_or
minimum-bounds [] base tail l h = (l, omega arith)
minimum-bounds (pending ∷ rs) base tail l h =
    omega (arith, unwrap_or-least 0 tail (minimum_cursor rs) (omega arith), h.0)
minimum-bounds (released ∷ rs) base tail l h = minimum-bounds rs base tail l h.1
minimum-bounds (reading c ∷ rs) base tail l h = omega (
  arith,
  unwrap_or-least c tail (minimum_cursor rs) h.0.1,
  h.0,
  minimum-bounds rs base tail l h.1,
)

-- Every reader still fits when the entries below all cursors are dropped.
pub SlotFits-minimum :
    (rs : List ReaderSlot) (base tail m : ℕ)
    → m ≤ unwrap_or tail (minimum_cursor rs)
    → All (SlotFits base tail) rs
    → All (SlotFits m tail) rs
unfolding SlotFits minimum_cursor
SlotFits-minimum [] base tail m l h = tt
SlotFits-minimum (pending ∷ rs) base tail m l h =
    let e = unwrap_or-least 0 tail (minimum_cursor rs) (omega arith) in
    (omega (arith, e), SlotFits-minimum rs base tail m (omega (arith, e)) h.1)
SlotFits-minimum (released ∷ rs) base tail m l h = (tt, SlotFits-minimum rs base tail m l h.1)
SlotFits-minimum (reading c ∷ rs) base tail m l h =
    let e = unwrap_or-least c tail (minimum_cursor rs) h.0.1 in
    ((omega (arith, e), h.0.1), SlotFits-minimum rs base tail m (omega (arith, e)) h.1)

pub SlotFits-tail :
    (rs : List ReaderSlot) (base tail : ℕ)
    → All (SlotFits base tail) rs
    → All (SlotFits base (tail + 1)) rs
unfolding SlotFits
SlotFits-tail [] base tail h = tt
SlotFits-tail (pending ∷ rs) base tail h = (h.0, SlotFits-tail rs base tail h.1)
SlotFits-tail (released ∷ rs) base tail h = (tt, SlotFits-tail rs base tail h.1)
SlotFits-tail (reading c ∷ rs) base tail h =
    ((h.0.0, omega (arith, h.0)), SlotFits-tail rs base tail h.1)

pub All-set_slot {ℓ} :
    (P : ReaderSlot → Type ℓ) (rs : List ReaderSlot) (i : ℕ) (r : ReaderSlot)
    → All P rs
    → P r
    → All P (set_slot rs i r)
unfolding set_slot
All-set_slot P [] i r h p = tt
All-set_slot P (x ∷ rs) zero r h p = (p, h.1)
All-set_slot P (x ∷ rs) (suc i) r h p = (h.0, All-set_slot P rs i r h.1 p)

pub All-at {ℓ} :
    (P : ReaderSlot → Type ℓ) (rs : List ReaderSlot) (i : ℕ) (r : ReaderSlot)
    → All P rs
    → get_elem? rs i ≡ some r
    → P r
All-at P [] i r h e = absurd (cc)
All-at P (x ∷ rs) zero r h e = subst P (some_inj x r e) h.0
  where
    some_inj : (a b : ReaderSlot) → some a ≡ some b → a ≡ b
    some_inj a b e = ground (arith, e)
All-at P (x ∷ rs) (suc i) r h e = All-at P rs i r h.1 e

pub SlotFits-released_pending :
    (rs : List ReaderSlot) (base tail : ℕ)
    → All (SlotFits base tail) rs
    → All (SlotFits base tail) (released_pending rs)
unfolding released_pending SlotFits
SlotFits-released_pending [] base tail h = tt
SlotFits-released_pending (pending ∷ rs) base tail h =
    (tt, SlotFits-released_pending rs base tail h.1)
SlotFits-released_pending (released ∷ rs) base tail h =
    (tt, SlotFits-released_pending rs base tail h.1)
SlotFits-released_pending (reading c ∷ rs) base tail h =
    (h.0, SlotFits-released_pending rs base tail h.1)

pub count-set_slot :
    (rs : List ReaderSlot) (i : ℕ) (old r : ReaderSlot)
    → get_elem? rs i ≡ some old
    → count_retaining (set_slot rs i r) + bit old ≡ count_retaining rs + bit r
unfolding set_slot count_retaining
count-set_slot [] i old r e = absurd (cc)
count-set_slot (x ∷ rs) zero old r e = grind (arith, e)
count-set_slot (x ∷ rs) (suc i) old r e = omega (arith, count-set_slot rs i old r e)

pub count-released_pending :
    (rs : List ReaderSlot)
    → count_retaining (released_pending rs) + count_pending rs ≡ count_retaining rs
unfolding released_pending count_pending count_retaining bit
count-released_pending [] = refl
count-released_pending (pending ∷ rs) = omega (arith, count-released_pending rs)
count-released_pending (released ∷ rs) = omega (arith, count-released_pending rs)
count-released_pending (reading c ∷ rs) = omega (arith, count-released_pending rs)

pub get_elem?-set_slot :
    (rs : List ReaderSlot) (i : ℕ) (old r : ReaderSlot)
    → get_elem? rs i ≡ some old
    → get_elem? (set_slot rs i r) i ≡ some r
unfolding set_slot
get_elem?-set_slot [] i old r e = absurd (cc)
get_elem?-set_slot (x ∷ rs) zero old r e = refl
get_elem?-set_slot (x ∷ rs) (suc i) old r e = get_elem?-set_slot rs i old r e

pub set_slot_other :
    (rs : List ReaderSlot) (i j : ℕ) (r : ReaderSlot)
    → i ≢ j
    → get_elem? (set_slot rs i r) j ≡ get_elem? rs j
unfolding set_slot
set_slot_other [] i j r n = refl
set_slot_other (x ∷ rs) zero zero r n = absurd (n refl)
set_slot_other (x ∷ rs) zero (suc j) r n = refl
set_slot_other (x ∷ rs) (suc i) zero r n = refl
set_slot_other (x ∷ rs) (suc i) (suc j) r n = set_slot_other rs i j r (λ e. n (ap suc e))

pub replicate-SlotFits : (n : ℕ) → All (SlotFits 0 0) (replicate n pending)
unfolding SlotFits
replicate-SlotFits zero = tt
replicate-SlotFits (suc n) = (refl, replicate-SlotFits n)

pub count-replicate : (n : ℕ) → count_retaining (replicate n pending) ≡ n
unfolding count_retaining bit
count-replicate zero = refl
count-replicate (suc n) = omega (arith, count-replicate n)
