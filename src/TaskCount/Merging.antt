-- ===== src/TaskCount/Merging.antt =====
-- Merging two restrictions intersects what they admit.
use datafusion_distributed.Prelude.{ℕ, ◌≡◌, refl, ◌↔◌, Option, Result, ok, err, arith}
use datafusion_distributed.TaskCount.{
  TaskCountRestriction, none, exact, MergeError, merge, Admits, IsValid,
}

merge-Admits :
    (r s t : TaskCountRestriction) (n : ℕ) → merge r s ≡ ok t → Admits r n → Admits s n → Admits t n
unfolding merge
merge-Admits none none t n h p q = ground arith
merge-Admits (exact a) (exact b) t n h p q = ground arith
merge-Admits r s t n h p q = ground arith

merge-Admits_left :
    (r s t : TaskCountRestriction) (n : ℕ) → merge r s ≡ ok t → Admits t n → Admits r n
unfolding merge
merge-Admits_left none none t n h p = ground arith
merge-Admits_left (exact a) (exact b) t n h p = ground arith
merge-Admits_left r s t n h p = ground arith

merge-Admits_right :
    (r s t : TaskCountRestriction) (n : ℕ) → merge r s ≡ ok t → Admits t n → Admits s n
unfolding merge
merge-Admits_right none none t n h p = ground arith
merge-Admits_right (exact a) (exact b) t n h p = ground arith
merge-Admits_right r s t n h p = ground arith

merge_conflict :
    (r s : TaskCountRestriction) (e : MergeError) (n : ℕ)
    → merge r s ≡ err e
    → IsValid r
    → IsValid s
    → Admits r n
    → Admits s n
    → ⊥
unfolding merge
merge_conflict none none e n h v w p q = ground arith
merge_conflict (exact a) (exact b) e n h v w p q = ground arith
merge_conflict r s e n h v w p q = ground arith

-- A merge succeeds with the restriction that admits the common counts, or fails for want of any.
abbrev pub Intersects :
    TaskCountRestriction → TaskCountRestriction → Result MergeError TaskCountRestriction → Type 0
Intersects r s (ok t) = (n : ℕ) → (Admits r n × Admits s n) ↔ Admits t n
Intersects r s (err e) = (n : ℕ) → Admits r n → Admits s n → ⊥

merge-Intersects_of :
    (r s : TaskCountRestriction) (m : Result MergeError TaskCountRestriction)
    → merge r s ≡ m
    → IsValid r
    → IsValid s
    → Intersects r s m
merge-Intersects_of r s (ok t) h v w = λ n. (
  (λ p. merge-Admits r s t n h p.0 p.1),
  λ p. (merge-Admits_left r s t n h p, merge-Admits_right r s t n h p),
)
merge-Intersects_of r s (err e) h v w = λ n p q. merge_conflict r s e n h v w p q

-- For valid restrictions, a successful merge admits exactly the task counts that both admit, and a
-- merge fails only where no task count satisfies both.
pub merge-Intersects :
    (r s : TaskCountRestriction) → IsValid r → IsValid s → Intersects r s (merge r s)
merge-Intersects r s v w = merge-Intersects_of r s (merge r s) refl v w

-- A successful merge of valid restrictions is valid.
pub merge-IsValid :
    (r s t : TaskCountRestriction) → IsValid r → IsValid s → merge r s ≡ ok t → IsValid t
unfolding merge
merge-IsValid none none t v w h = ground arith
merge-IsValid (exact a) (exact b) t v w h = ground arith
merge-IsValid r s t v w h = ground arith

abbrev pub to_option {ℓ κ} : {E : Type ℓ} {A : Type κ} → Result E A → Option A
to_option (ok a) = Option.some a
to_option (err e) = Option.none

-- The order of two merged restrictions does not matter, but for the message of an error.
pub merge_comm : (r s : TaskCountRestriction) → to_option (merge r s) ≡ to_option (merge s r)
unfolding merge
merge_comm none none = ground arith
merge_comm (exact a) (exact b) = ground arith
merge_comm r s = ground arith
