-- ===== src/Filters/Dispatch/Offers.antt =====
-- A dispatch of a merged dynamic filter reaches its consumers
-- (src/coordinator/dynamic_filter_registry.rs).
use datafusion_distributed.Prelude.{
  ℕ, ◌≡◌, refl, ap, sym, subst, ◌∙◌, true, false, ◌&&◌, List, [], ◌∷◌, Option, none, some, Result,
  ok, err, if◌then◌else◌, ◌==◌, arith, Bool-cases, Option-cases, inl, inr,
}
use datafusion_distributed.Filters.Merge.{TaskKey, Expressions, Report}
use datafusion_distributed.Filters.Updates.{same_key}
use datafusion_distributed.Filters.Dispatch.{
  Env, Verdict, continues, finished, fails, Message, Outbox, Registry, contains, contains_key,
  sender_of, send, offer, offer_to, offer_all, RegistryError, channel_closed,
}

module _ (x : Expressions) where
  pub same_key→eq : (j k : TaskKey) → same_key x j k ≡ true → j ≡ k
  unfolding same_key
  same_key→eq j k h = ground arith

  pub same_key_self : (k : TaskKey) → same_key x k k ≡ true
  unfolding same_key
  same_key_self k = ground arith

module _ (x : Expressions) (Schema : Type 0) where
  -- the latest filter that was sent to a task over a channel
  unfoldable pub latest : TaskKey → ℕ → List (Message x Schema) → Option (Report x)
  unfolding same_key
  latest k channel [] = none
  latest k channel (a ∷ sent) =
      let rest = latest k channel sent in
      if same_key x k a.task && channel == a.channel then some a.expression else rest

  -- The query has not finished, and all channels are open.
  abbrev pub IsCalm : Env → Type 0
  IsCalm env = (env.cancelled ≡ false) × ((c : ℕ) → env.open_channel c ≡ true)

  -- Each task that counts as delivered got `m` last over its channel.
  abbrev pub IsFresh : List (TaskKey × ℕ) → Report x → Outbox x Schema → Type 0
  IsFresh senders m box =
      (j : TaskKey) (c : ℕ)
      → contains x j box.delivered ≡ true
      → sender_of x j senders ≡ some c
      → latest j c box.sent ≡ some m

  -- Tasks that count as delivered remain so.
  abbrev pub Extends : Outbox x Schema → Outbox x Schema → Type 0
  Extends box next =
      (j : TaskKey) → contains x j box.delivered ≡ true → contains x j next.delivered ≡ true

  send-IsFresh :
      (senders : List (TaskKey × ℕ)) (k : TaskKey) (c : ℕ) (m : Report x) (s : Schema)
      (box : Outbox x Schema)
      → IsFresh senders m box
      → sender_of x k senders ≡ some c
      → IsFresh senders m (send x Schema k c m s box)
  unfolding send contains latest
  send-IsFresh senders k c m s box f e j d = elim (Bool-cases (same_key x j k)) [
    | inl same ↦ λ i h.
        let owner : sender_of x j senders ≡ some c =
          subst (λ u. sender_of x u senders ≡ some c) (sym (same_key→eq x j k same)) e in
        ground (arith, same, owner, h)
    | inr other ↦ λ i h. ground (arith, other, f j d, i, h)
  ]

  send-Extends :
      (k : TaskKey) (c : ℕ) (m : Report x) (s : Schema) (box : Outbox x Schema)
      → Extends box (send x Schema k c m s box)
  unfolding send contains
  send-Extends k c m s box j h = ground (arith, h)

  send-contains :
      (k : TaskKey) (c : ℕ) (m : Report x) (s : Schema) (box : Outbox x Schema)
      → contains x k (send x Schema k c m s box).delivered ≡ true
  unfolding send contains
  send-contains k c m s box = ground (arith, same_key_self x k)

  module _ (env : Env) (calm : IsCalm env) (r : Registry x Schema) (m : Report x) (s : Schema) where
    -- `k` counts as delivered in an outbox, if it does not produce the filter and has a sender.
    abbrev pub Reaches : TaskKey → Outbox x Schema → Type 0
    Reaches k next =
        contains_key x k r.state.filter.producers ≡ false
        → (c : ℕ) → sender_of x k r.task_senders ≡ some c
        → contains x k next.delivered ≡ true

    offer_to_calm :
        (k : TaskKey) (box : Outbox x Schema)
        → IsFresh r.task_senders m box
        → (next : Outbox x Schema) × (offer_to x Schema env k m s box (sender_of x k r.task_senders)
            ≡ (next, continues))
          × IsFresh r.task_senders m next
          × Extends box next
          × Reaches k next
    unfolding offer_to
    offer_to_calm k box f = elim (Option-cases (sender_of x k r.task_senders)) [
      | inl e ↦ (box, rw e refl, f, λ j h. h, λ p c h. absurd (ground (arith, e, h)))
      | inr (c, e) ↦ (
        send x Schema k c m s box,
        rw e (rw (calm.1 c) refl),
        send-IsFresh r.task_senders k c m s box f e,
        send-Extends k c m s box,
        λ p d h. send-contains k c m s box,
      )
    ]

    offer_calm :
        (k : TaskKey) (box : Outbox x Schema)
        → IsFresh r.task_senders m box
        → (next : Outbox x Schema) × (offer x Schema env r m s k box ≡ (next, continues))
          × IsFresh r.task_senders m next
          × Extends box next
          × Reaches k next
    unfolding offer
    offer_calm k box f = elim (Bool-cases (contains_key x k r.state.filter.producers)) [
      | inl p ↦ (box, rw p refl, f, λ j h. h, λ q c h. absurd (ground (arith, p, q)))
      | inr p ↦ elim (Bool-cases (contains x k box.delivered)) [
        | inl d ↦ (box, rw p (rw d refl), f, λ j h. h, λ q c h. d)
        | inr d ↦
            let (next, e, fresh, more, own) = offer_to_calm k box f in
            (next, rw p (rw d e), fresh, more, own)
      ]
    ]

    pub offer_all_calm :
        (ks : List TaskKey) (box : Outbox x Schema)
        → IsFresh r.task_senders m box
        → (next : Outbox x Schema) × (offer_all x Schema env r m s ks box ≡ (next, ok tt))
          × IsFresh r.task_senders m next
          × Extends box next
          × ((k : TaskKey) → contains x k ks ≡ true → Reaches k next)
    unfolding offer_all contains
    offer_all_calm [] box f = (box, refl, f, λ j h. h, λ k h. absurd (ground (arith, h)))
    offer_all_calm (k ∷ ks) box f =
        let (mid, e, fresh, more, own) = offer_calm k box f in
        let (next, e', fresh', more', all) = offer_all_calm ks mid fresh in
        (
          next,
          ap
                (λ (o : Outbox x Schema × Verdict).
                  elim o.1 as (λ _. Outbox x Schema × Result RegistryError (Unit {0})) [
                    | continues ↦ offer_all x Schema env r m s ks o.0
                    | finished ↦ (o.0, ok tt)
                    | fails ↦ (o.0, err channel_closed)
                  ])
                e
              ∙ e',
          fresh',
          λ j h. more' j (more j h),
          λ j h. elim (Bool-cases (same_key x j k)) [
            | inl same ↦
                let owner = subst (λ u. Reaches u mid) (sym (same_key→eq x j k same)) own in
                λ p c e. more' j (owner p c e)
            | inr other ↦ all j (ground (arith, h, other))
          ],
        )
