-- ===== src/Union/Slots/Occurrences.antt =====
-- How often an entry stands in the outer tasks.
use native.Mathlib.Nat.{mod-lt}
use datafusion_distributed.Prelude.{
  ℕ, zero, suc, ◌+◌, ◌-◌, ◌%◌, ◌≤◌, ◌<◌, ◌≡◌, refl, Bool, ◌&&◌, List, [], ◌∷◌, ◌++◌, if◌then◌else◌,
  ltb, leb, ◌==◌, replicate, length, arith,
}
use datafusion_distributed.Union.Slots.{Entry, Placed, push_at, place_child}

-- Task `j` of `m` of child `c`.
abbrev pub entry : ℕ → ℕ → ℕ → Entry
entry c j m = (c, record { task_index = j; task_count = m })

abbrev pub same : Entry → ℕ → ℕ → ℕ → Bool
same e c j m = e.0 == c && (e.1.task_index == j && e.1.task_count == m)

-- How many times task `j` of `m` of child `c` runs.
unfoldable pub in_slot : ℕ → ℕ → ℕ → List Entry → ℕ
in_slot c j m [] = 0
in_slot c j m (e ∷ es) = (if same e c j m then 1 else 0) + in_slot c j m es

unfoldable pub occurrences : ℕ → ℕ → ℕ → List (List Entry) → ℕ
occurrences c j m [] = 0
occurrences c j m (s ∷ ss) = in_slot c j m s + occurrences c j m ss

in_slot-append :
    (c j m : ℕ) (xs ys : List Entry)
    → in_slot c j m (xs ++ ys) ≡ in_slot c j m xs + in_slot c j m ys
unfolding in_slot
in_slot-append c j m [] ys = omega arith
in_slot-append c j m (x ∷ xs) ys = omega (arith, in_slot-append c j m xs ys)

pub occurrences-push_at :
    (c j m : ℕ) (slots : List (List Entry)) (i : ℕ) (e : Entry)
    → i < length slots
    → occurrences c j m (push_at slots i e)
      ≡ occurrences c j m slots + (if same e c j m then 1 else 0)
unfolding occurrences push_at in_slot
occurrences-push_at c j m [] i e h = absurd (omega arith)
occurrences-push_at c j m (s ∷ ss) zero e h = omega (arith, in_slot-append c j m s (e ∷ []))
occurrences-push_at c j m (s ∷ ss) (suc i) e h =
    omega (arith, occurrences-push_at c j m ss i e (omega arith))

pub length-push_at :
    (slots : List (List Entry)) (i : ℕ) (e : Entry) → length (push_at slots i e) ≡ length slots
unfolding push_at
length-push_at [] i e = refl
length-push_at (s ∷ ss) zero e = refl
length-push_at (s ∷ ss) (suc i) e = omega (arith, length-push_at ss i e)

-- One if task `j` of `m` of child `c` is among the last `left` of the `n` tasks of child `d`.
abbrev pub among : ℕ → ℕ → ℕ → ℕ → ℕ → ℕ → ℕ
among c j m d n left = if c == d && (m == n && (leb (n - left) j && ltb j n)) then 1 else 0

pub length-place_child :
    (b d n left : ℕ) (p : Placed) → length (place_child b d n left p).slots ≡ length p.slots
unfolding place_child
length-place_child b d n zero p = refl
length-place_child b d n (suc left) p = omega (
  arith,
  length-place_child b d n left (record {
    slots = push_at p.slots (p.task_idx % b) (entry d (n - suc left) n);
    task_idx = p.task_idx + 1;
  }),
  length-push_at p.slots (p.task_idx % b) (entry d (n - suc left) n),
)

pub occurrences-place_child :
    (c j m b d n left : ℕ) (p : Placed)
    → 0 < b
    → length p.slots ≡ b
    → left ≤ n
    → occurrences c j m (place_child b d n left p).slots
      ≡ occurrences c j m p.slots + among c j m d n left
unfolding place_child
occurrences-place_child c j m b d n zero p hb hl h = ground arith
occurrences-place_child c j m b d n (suc left) p hb hl h = ground (
  arith,
  occurrences-place_child c j m b d n left (record {
    slots = push_at p.slots (p.task_idx % b) (entry d (n - suc left) n);
    task_idx = p.task_idx + 1;
  }),
  length-push_at p.slots (p.task_idx % b) (entry d (n - suc left) n),
  occurrences-push_at c j m p.slots (p.task_idx % b) (entry d (n - suc left) n),
  mod-lt p.task_idx {m = b} hb,
)

pub occurrences-empty : (c j m b : ℕ) → occurrences c j m (replicate b []) ≡ 0
unfolding occurrences in_slot
occurrences-empty c j m zero = refl
occurrences-empty c j m (suc b) = omega (arith, occurrences-empty c j m b)
