-- ===== src/Outbox/Delivered.antt =====
-- packages/outbox: which marks of the rows the relay has earned.
use scalper_v.Base.{
  arith, ℕ, ◌+◌, ◌≤◌, ◌≡◌, ◌⊎◌, inl, inr, refl, sym, subst, Bool, true, false, Option, List, [],
  ◌∷◌, All, ◌==◌, length, if_cases,
}
use scalper_v.Outbox.{
  OutboxEvent, OutboxRelaySettings, insert_outbox_event, is_none, select_pending_outbox_events,
  update_event, as_published, mark_outbox_event_published, as_failed, mark_outbox_event_failed,
  Delivery, delivered, refused, cancelled, Outbox, BatchEnv, relay_events, end_batch, run_one_batch,
}
use scalper_v.Outbox.Rank.{marked, relay_events-cons}

-- The bus has taken an event with this key.
unfoldable pub Sent : ℕ → List OutboxEvent → Type 0
Sent id [] = ⊥
Sent id (e ∷ es) = (e.id ≡ id) ⊎ Sent id es

unfoldable Grows : List OutboxEvent → List OutboxEvent → Type 0
Grows sent sent' = (id : ℕ) → Sent id sent → Sent id sent'

module _ (s : OutboxRelaySettings) where
  -- A published row was sent, and a row that is given up has had all its attempts.
  abbrev IsEarned : List OutboxEvent → OutboxEvent → Type 0
  IsEarned sent r =
      (is_none r.published_at ≡ false → Sent r.id sent)
      × (is_none r.failed_at ≡ false → s.max_attempts ≤ r.attempt_count)

  abbrev pub AllEarned : Outbox → Type 0
  AllEarned x = All (IsEarned x.sent) x.rows

  AllEarned-more :
      (sent sent' rows : List OutboxEvent)
      → Grows sent sent'
      → All (IsEarned sent) rows
      → All (IsEarned sent') rows
  unfolding Grows
  AllEarned-more sent sent' [] g h = tt
  AllEarned-more sent sent' (r ∷ rs) g ((p, q), hs) =
      ((λ e. g r.id (p e), q), AllEarned-more sent sent' rs g hs)

  AllEarned-update :
      (sent : List OutboxEvent) (id : ℕ) (f : OutboxEvent → OutboxEvent)
      → ((r : OutboxEvent) → r.id ≡ id → IsEarned sent r → IsEarned sent (f r))
      → (rows : List OutboxEvent) → All (IsEarned sent) rows
      → All (IsEarned sent) (update_event id f rows)
  unfolding update_event
  AllEarned-update sent id f l [] h = tt
  AllEarned-update sent id f l (r ∷ rs) (h, hs) = (
    if_cases (IsEarned sent) (r.id == id) (f r) r (λ e. l r (ground (arith, e)) h) (λ e. h),
    AllEarned-update sent id f l rs hs,
  )

  as_failed-IsEarned :
      (sent : List OutboxEvent) (error at : ℕ) (r : OutboxEvent)
      → IsEarned sent r
      → IsEarned sent (as_failed s error at r)
  as_failed-IsEarned sent error at r (p, q) = (p, λ e. ground (arith, e))

  marked-AllEarned :
      (e : OutboxEvent) (d : Delivery) (x : Outbox) → AllEarned x → AllEarned (marked s e d x)
  unfolding mark_outbox_event_published mark_outbox_event_failed Sent Grows
  marked-AllEarned e (delivered at) x h =
      AllEarned-update (e ∷ x.sent) e.id (as_published at) (λ r i (p, q). (λ c. inl (sym i), q))
        x.rows (AllEarned-more x.sent (e ∷ x.sent) x.rows (λ id t. inr t) h)
  marked-AllEarned e (refused error at) x h =
      AllEarned-update x.sent e.id (as_failed s error at)
        (λ r i g. as_failed-IsEarned x.sent error at r g) x.rows h
  marked-AllEarned e cancelled x h = h

  marked-Grows : (e : OutboxEvent) (d : Delivery) (x : Outbox) → Grows x.sent (marked s e d x).sent
  unfolding Sent Grows
  marked-Grows e (delivered at) x = λ id t. inr t
  marked-Grows e (refused error at) x = λ id t. t
  marked-Grows e cancelled x = λ id t. t

  -- Both hold after the events of a batch.
  abbrev Follows : Outbox → Outbox → Type 0
  Follows x y = AllEarned y × Grows x.sent y.sent

  relay_events-Follows :
      (delivery : ℕ → Delivery) (n : ℕ) (es : List OutboxEvent) (x : Outbox)
      → AllEarned x
      → Follows x (relay_events s delivery n es x).0
  unfolding relay_events Grows
  relay_events-Follows delivery n [] x h = (h, λ id t. t)
  relay_events-Follows delivery n (e ∷ es) x h =
      elim (relay_events-cons s delivery n e es x (delivery n) refl) [
        | inl q ↦ subst (λ (z : Outbox × Bool). Follows x z.0) (sym q) (h, λ id t. t)
        | inr (c, q) ↦
            let (a, b) =
              relay_events-Follows delivery (n + 1) es (marked s e (delivery n) x)
                (marked-AllEarned e (delivery n) x h) in
            subst (λ (z : Outbox × Bool). Follows x z.0) (sym q)
              (a, λ id t. b id (marked-Grows e (delivery n) x id t))
      ]

  end_batch-AllEarned :
      (x : Outbox) (commits : Bool) (n : ℕ) (r : Outbox × Bool)
      → AllEarned x
      → Follows x r.0
      → AllEarned (end_batch x commits n r).0
  end_batch-AllEarned x true n (y, true) h (a, b) = a
  end_batch-AllEarned x false n (y, true) h (a, b) = AllEarned-more x.sent y.sent x.rows b h
  end_batch-AllEarned x true n (y, false) h (a, b) = AllEarned-more x.sent y.sent x.rows b h
  end_batch-AllEarned x false n (y, false) h (a, b) = AllEarned-more x.sent y.sent x.rows b h

  run_one_batch-AllEarned :
      (service : ℕ) (env : BatchEnv) (x : Outbox)
      → AllEarned x
      → AllEarned (run_one_batch s service env x).0
  unfolding run_one_batch
  run_one_batch-AllEarned service env x h =
      let events = select_pending_outbox_events s service env.now x.rows in
      end_batch-AllEarned x env.commits (length events) (relay_events s env.delivery 0 events x) h
        (relay_events-Follows env.delivery 0 events x h)

  -- Inserts and batches, whole or cut off, of any service.
  pub data Steps (x : Outbox) : Outbox → Type 0 where
    stay : Steps x x
    and_insert :
        (y : Outbox) (id service subject : ℕ) (correlation : Option ℕ) (payload at : ℕ)
        → Steps x y
        → Steps x (record y {
          rows = insert_outbox_event id service subject correlation payload at y.rows;
        })
    and_batch :
        (y : Outbox) (service : ℕ) (env : BatchEnv)
        → Steps x y
        → Steps x (run_one_batch s service env y).0

-- However inserts and batches follow one another, batches that are cancelled or do not commit
-- included, the event of a row that is marked as published was taken by the bus, and a row is given
-- up only once its attempts have reached the limit.
pub Steps-AllEarned :
    (s : OutboxRelaySettings) (x y : Outbox) → Steps s x y → AllEarned s x → AllEarned s y
unfolding insert_outbox_event
Steps-AllEarned s x _ stay h = h
Steps-AllEarned s x _ (and_insert y id service subject correlation payload at run) h =
    ((λ e. ground (arith, e), λ e. ground (arith, e)), Steps-AllEarned s x y run h)
Steps-AllEarned s x _ (and_batch y service env run) h =
    run_one_batch-AllEarned s service env y (Steps-AllEarned s x y run h)
