-- ===== src/Pool/Groups.antt =====
-- What a call does to one group of a connection pool (src/worker/worker_connection_pool.rs).
use datafusion_distributed.Prelude.{
  ℕ, ◌≡◌, refl, ap, sym, subst, ◌∙◌, true, not, List, [], ◌∷◌, Option, none, some, Result, err,
  if◌then◌else◌, ltb, arith, if-elim, Bool-cases, inl, inr, All,
}
use datafusion_distributed.Pool.{
  Key, same_key, StreamGroup, WorkerConnectionPool, Handle, Call, executes, sets_up, polls, drops,
  PoolError, fresh, entered, put, claim, claim_slot, claimed_group, execute, set_up_once, set_up,
  update, take_at, take_connected, poll, polled, drop_stream, step, run, worker_out_of_range,
  task_not_found, fails, no_stream, Poll,
}

pub same_key→eq : (j k : Key) → same_key j k ≡ true → j ≡ k
unfolding same_key
same_key→eq j k h = ground arith

pub same_key_self : (k : Key) → same_key k k ≡ true
unfolding same_key
same_key_self k = ground arith

module _ {S E : Type 0} (T : StreamGroup S E → Type 0) (k0 : Key) where
  -- What holds of the group of `k0`, where there is one.
  abbrev pub Fits : Option (StreamGroup S E) → Type 0
  Fits none = Unit
  Fits (some g) = T g

  -- There is a group of `k0`, and it satisfies `T`.
  abbrev pub Tracks : Option (StreamGroup S E) → Type 0
  Tracks none = ⊥
  Tracks (some g) = T g

  -- What a call does to a group of `k0` keeps `T`.
  abbrev pub Keeps : Call S E → Type 0
  Keeps (executes w k target) =
      (g : StreamGroup S E) → T g → T (claimed_group g (claim_slot k target g))
  Keeps (sets_up k answer) = (g : StreamGroup S E) → T g → T (set_up_once answer g)
  Keeps (polls h) =
      same_key k0 h.key ≡ true → (g : StreamGroup S E) → T g → T (take_connected h.index g g.setup)
  Keeps (drops h) =
      same_key k0 h.key ≡ true
      → (g : StreamGroup S E) → T g
      → T (record g { slots = take_at true g.slots h.index })

  module _ (P : Option (StreamGroup S E) → Type 0) where
    -- A new group of `k` in the place of that of `k0`, if these are the same.
    put_at :
        (k : Key) (g : StreamGroup S E) (pool : WorkerConnectionPool S E)
        → (same_key k0 k ≡ true → P (some g))
        → P (pool.groups k0)
        → P ((put k g pool).groups k0)
    unfolding put
    put_at k g pool new old = elim (Bool-cases (same_key k0 k)) [
      | inl e ↦ rw e (new e)
      | inr e ↦ rw e old
    ]

    update_at :
        (k : Key) (f : StreamGroup S E → StreamGroup S E) (pool : WorkerConnectionPool S E)
        → ((g : StreamGroup S E) → same_key k0 k ≡ true → P (some g) → P (some (f g)))
        → P (pool.groups k0)
        → P ((update k f pool).groups k0)
    unfolding update
    update_at k f pool keep old =
        elim (pool.groups k)
            as (λ o.
              pool.groups k ≡ o
              → P (
                  (elim o as (λ _. WorkerConnectionPool S E) [
                    | none ↦ pool
                    | some g ↦ put k (f g) pool
                  ]).groups
                    k0)) [
                      | none ↦ λ e. old
                      | some g ↦ λ e.
                          put_at k (f g) pool
                            (λ same.
                              keep g same
                                (subst P (ap pool.groups (same_key→eq k0 k same) ∙ e) old))
                            old
                    ]
          refl

  module _ (P : Option (StreamGroup S E) → Type 0) where
    execute_at :
        (w : ℕ) (k : Key) (target : ℕ) (pool : WorkerConnectionPool S E)
        → ((g : StreamGroup S E)
            → same_key k0 k ≡ true
            → P (pool.groups k0)
            → g ≡ entered k (pool.groups k)
            → P (some (claimed_group g (claim_slot k target g))))
        → P (pool.groups k0)
        → P ((execute w k target pool).0.groups k0)
    unfolding execute claim
    execute_at w k target pool keep old =
        let Q = λ (r : WorkerConnectionPool S E × Result (PoolError E) Handle). P (r.0.groups k0) in
        let g = entered k (pool.groups k) in
        let made = claim k target g pool in
        let second = if not (ltb k.task pool.size) then (pool, err task_not_found) else made in
        if-elim Q (not (ltb k.task w)) {x = (pool, err worker_out_of_range)} {y = second} old (
          if-elim Q (not (ltb k.task pool.size)) {x = (pool, err task_not_found)} {y = made} old (
            put_at P k (claimed_group g (claim_slot k target g)) pool (λ e. keep g e old refl) old))

    poll_at :
        (h : Handle) (pool : WorkerConnectionPool S E)
        → ((g : StreamGroup S E)
            → same_key k0 h.key ≡ true
            → P (some g)
            → P (some (take_connected h.index g g.setup)))
        → P (pool.groups k0)
        → P ((poll h pool).0.groups k0)
    unfolding poll
    poll_at h pool keep old =
        elim (pool.groups h.key)
          as (λ o. P (
            (elim o as (λ _. WorkerConnectionPool S E × Poll S E) [
              | none ↦ (pool, fails no_stream)
              | some g ↦ (
                update h.key (λ g'. take_connected h.index g' g'.setup) pool,
                polled g.setup g.slots h.index,
              )
            ]).0.groups
              k0)) [
                | none ↦ old
                | some g ↦
                    update_at P h.key (λ g'. take_connected h.index g' g'.setup) pool keep old
              ]

  entered-Tracks : (k : Key) (o : Option (StreamGroup S E)) → Tracks o → T (entered k o)
  unfolding entered
  entered-Tracks k none t = absurd t
  entered-Tracks k (some g) t = t

  entered-Fits : (o : Option (StreamGroup S E)) → T (fresh k0) → Fits o → T (entered k0 o)
  unfolding entered
  entered-Fits none n t = n
  entered-Fits (some g) n t = t

  -- A call that keeps `T` keeps it of the group of `k0` once there is one.
  pub step-Tracks :
      (c : Call S E) (pool : WorkerConnectionPool S E)
      → Keeps c
      → Tracks (pool.groups k0)
      → Tracks ((step pool c).groups k0)
  unfolding step set_up drop_stream
  step-Tracks (executes w k target) pool keep t =
      execute_at Tracks w k target pool
        (λ g e old s. keep g (
          subst T (sym s) (
            subst (λ j. T (entered j (pool.groups j))) (same_key→eq k0 k e)
              (entered-Tracks k0 (pool.groups k0) old))))
        t
  step-Tracks (sets_up k answer) pool keep t =
      update_at Tracks k (set_up_once answer) pool (λ g e old. keep g old) t
  step-Tracks (polls h) pool keep t = poll_at Tracks h pool (λ g e old. keep e g old) t
  step-Tracks (drops h) pool keep t =
      update_at Tracks h.key (λ g. record g { slots = take_at true g.slots h.index }) pool
        (λ g e old. keep e g old) t

  -- A call that keeps `T`, which a new group satisfies, keeps it of the group of `k0` if there is one.
  pub step-Fits :
      (c : Call S E) (pool : WorkerConnectionPool S E)
      → Keeps c
      → T (fresh k0)
      → Fits (pool.groups k0)
      → Fits ((step pool c).groups k0)
  unfolding step set_up drop_stream
  step-Fits (executes w k target) pool keep n t =
      execute_at Fits w k target pool
        (λ g e old s. keep g (
          subst T (sym s) (
            subst (λ j. T (entered j (pool.groups j))) (same_key→eq k0 k e)
              (entered-Fits (pool.groups k0) n old))))
        t
  step-Fits (sets_up k answer) pool keep n t =
      update_at Fits k (set_up_once answer) pool (λ g e old. keep g old) t
  step-Fits (polls h) pool keep n t = poll_at Fits h pool (λ g e old. keep e g old) t
  step-Fits (drops h) pool keep n t =
      update_at Fits h.key (λ g. record g { slots = take_at true g.slots h.index }) pool
        (λ g e old. keep e g old) t

  pub run-Tracks :
      (cs : List (Call S E)) (pool : WorkerConnectionPool S E)
      → All Keeps cs
      → Tracks (pool.groups k0)
      → Tracks ((run pool cs).groups k0)
  unfolding run
  run-Tracks [] pool keep t = t
  run-Tracks (c ∷ cs) pool keep t = run-Tracks cs (step pool c) keep.1 (step-Tracks c pool keep.0 t)

  pub run-Fits :
      (cs : List (Call S E)) (pool : WorkerConnectionPool S E)
      → All Keeps cs
      → T (fresh k0)
      → Fits (pool.groups k0)
      → Fits ((run pool cs).groups k0)
  unfolding run
  run-Fits [] pool keep n t = t
  run-Fits (c ∷ cs) pool keep n t = run-Fits cs (step pool c) keep.1 n (step-Fits c pool keep.0 n t)
