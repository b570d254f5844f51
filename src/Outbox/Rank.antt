-- ===== src/Outbox/Rank.antt =====
-- packages/outbox/relay.py: the loop of `run` comes to a sleep.
use scalper_v.Base.{
  arith, ℕ, zero, suc, ◌+◌, ◌-◌, ◌≤◌, ◌<◌, ◌≡◌, ◌≢◌, ◌⊎◌, inl, inr, refl, ap, subst, Bool, true,
  false, Option, none, some, List, [], ◌∷◌, Memᴰ, ◌==◌, length, if_cases, if◌then◌else◌,
}
use mathlib.Core.List.Memᴰ.{head, tail}
use scalper_v.Outbox.{
  OutboxEvent, OutboxRelaySettings, is_none, select_pending_outbox_events, update_event,
  as_published, mark_outbox_event_published, as_failed, mark_outbox_event_failed, Delivery,
  delivered, refused, cancelled, Outbox, BatchEnv, relay_events, end_batch, run_one_batch,
  out_of_fuel, poll,
}
use scalper_v.Outbox.Pending.{IsDue, IsOldest, select_pending_outbox_events-IsOldest}

module _ (s : OutboxRelaySettings) where
  -- How often a row can still be tried, and once more while it is not given up.
  abbrev rank : OutboxEvent → ℕ
  rank r =
      if is_none r.published_at
      then (s.max_attempts - r.attempt_count) + (if is_none r.failed_at then 1 else 0)
      else 0

  unfoldable pub total : List OutboxEvent → ℕ
  total [] = 0
  total (r ∷ rs) = rank r + total rs

  as_published-le : (at : ℕ) (r : OutboxEvent) → rank (as_published at r) ≤ rank r
  as_published-le at r = omega arith

  as_failed-le : (error at : ℕ) (r : OutboxEvent) → rank (as_failed s error at r) ≤ rank r
  as_failed-le error at r = ground arith

  -- A row that is neither published nor given up.
  abbrev IsPending : OutboxEvent → Type 0
  IsPending r = (is_none r.published_at ≡ true) × (is_none r.failed_at ≡ true)

  as_published-lt : (at : ℕ) (r : OutboxEvent) → IsPending r → rank (as_published at r) < rank r
  as_published-lt at r (p, q) = ground (arith, p, q)

  as_failed-lt :
      (error at : ℕ) (r : OutboxEvent) → IsPending r → rank (as_failed s error at r) < rank r
  as_failed-lt error at r (p, q) = ground (arith, p, q)

  module _ (id : ℕ) (f : OutboxEvent → OutboxEvent)
      (le : (r : OutboxEvent) → rank (f r) ≤ rank r) where
    total-update : (rows : List OutboxEvent) → total (update_event id f rows) ≤ total rows
    unfolding total update_event
    total-update [] = omega arith
    total-update (r ∷ rs) =
        let l = total-update rs in
        if_cases (λ x. rank x + total (update_event id f rs) ≤ rank r + total rs) (r.id == id) (f r)
          r (λ e. omega (arith, le r, l)) (λ e. omega (arith, l))

    total-update-lt :
        (e : OutboxEvent) (rows : List OutboxEvent)
        → Memᴰ e rows
        → e.id ≡ id
        → rank (f e) < rank e
        → total (update_event id f rows) < total rows
    unfolding total update_event
    total-update-lt e [] m i l = elim m [ ]
    total-update-lt e (r ∷ rs) (head q) i l =
        let l' = subst (λ x. rank (f x) < rank x) q l in
        let i' = subst (λ x. x.id ≡ id) q i in
        let rest = total-update rs in
        if_cases (λ x. rank x + total (update_event id f rs) < rank r + total rs) (r.id == id) (f r)
          r (λ c. omega (arith, l', rest)) (λ c. ground (arith, c, i'))
    total-update-lt e (r ∷ rs) (tail m) i l =
        let l' = total-update-lt e rs m i l in
        if_cases (λ x. rank x + total (update_event id f rs) < rank r + total rs) (r.id == id) (f r)
          r (λ c. omega (arith, le r, l')) (λ c. omega (arith, l'))

  -- The outbox after the first event of a batch, if the batch goes on.
  abbrev pub marked : OutboxEvent → Delivery → Outbox → Outbox
  marked e (delivered at) x = record {
    rows = mark_outbox_event_published e.id at x.rows;
    sent = e ∷ x.sent;
  }
  marked e (refused error at) x = record x {
    rows = mark_outbox_event_failed s e.id error at x.rows;
  }
  marked e cancelled x = x

  marked-le :
      (e : OutboxEvent) (d : Delivery) (x : Outbox) → total (marked e d x).rows ≤ total x.rows
  unfolding mark_outbox_event_published mark_outbox_event_failed
  marked-le e (delivered at) x = total-update e.id (as_published at) (as_published-le at) x.rows
  marked-le e (refused error at) x =
      total-update e.id (as_failed s error at) (as_failed-le error at) x.rows
  marked-le e cancelled x = omega arith

  -- Either the publish is cancelled, or the rest follows on the marked outbox.
  pub relay_events-cons :
      (delivery : ℕ → Delivery) (n : ℕ) (e : OutboxEvent) (es : List OutboxEvent) (x : Outbox)
      → (d : Delivery) → delivery n ≡ d
      → (relay_events s delivery n (e ∷ es) x ≡ (x, false))
        ⊎ ((d ≢ cancelled)
            × (relay_events s delivery n (e ∷ es) x
                ≡ relay_events s delivery (n + 1) es (marked e d x)))
  unfolding relay_events
  relay_events-cons delivery n e es x (delivered at) q =
      inr (λ c. ground (arith, c), rw (relay_events, q) refl)
  relay_events-cons delivery n e es x (refused error at) q =
      inr (λ c. ground (arith, c), rw (relay_events, q) refl)
  relay_events-cons delivery n e es x cancelled q = inl (rw (relay_events, q) refl)

  relay_events-le :
      (delivery : ℕ → Delivery) (n : ℕ) (es : List OutboxEvent) (x : Outbox)
      → total (relay_events s delivery n es x).0.rows ≤ total x.rows
  unfolding relay_events
  relay_events-le delivery n [] x = omega arith
  relay_events-le delivery n (e ∷ es) x =
      elim (relay_events-cons delivery n e es x (delivery n) refl) [
        | inl q ↦ rw q (omega arith)
        | inr (c, q) ↦
            let l = relay_events-le delivery (n + 1) es (marked e (delivery n) x) in
            let k = marked-le e (delivery n) x in rw q (omega (arith, l, k))
      ]

  marked-lt :
      (e : OutboxEvent) (d : Delivery) (x : Outbox)
      → d ≢ cancelled
      → Memᴰ e x.rows
      → IsPending e
      → total (marked e d x).rows < total x.rows
  unfolding mark_outbox_event_published mark_outbox_event_failed
  marked-lt e (delivered at) x c m p =
      total-update-lt e.id (as_published at) (as_published-le at) e x.rows m refl
        (as_published-lt at e p)
  marked-lt e (refused error at) x c m p =
      total-update-lt e.id (as_failed s error at) (as_failed-le error at) e x.rows m refl
        (as_failed-lt error at e p)
  marked-lt e cancelled x c m p = absurd (c refl)

  relay_events-lt :
      (delivery : ℕ → Delivery) (n : ℕ) (e : OutboxEvent) (es : List OutboxEvent) (x : Outbox)
      → Memᴰ e x.rows
      → IsPending e
      → (relay_events s delivery n (e ∷ es) x).1 ≡ true
      → total (relay_events s delivery n (e ∷ es) x).0.rows < total x.rows
  relay_events-lt delivery n e es x m p alive =
      elim (relay_events-cons delivery n e es x (delivery n) refl) [
        | inl q ↦ ground (arith, alive, ap (λ (z : Outbox × Bool). z.1) q)
        | inr (c, q) ↦
            let l = relay_events-le delivery (n + 1) es (marked e (delivery n) x) in
            let k = marked-lt e (delivery n) x c m p in rw q (omega (arith, l, k))
      ]

  IsDue-IsPending : (service now : ℕ) (e : OutboxEvent) → IsDue s service now e → IsPending e
  IsDue-IsPending service now e d = rw (d.unpublished, d.unfailed) (refl, refl)

  -- A batch that returns has gone through its events, and is committed.
  end_batch-committed :
      (x : Outbox) (commits : Bool) (n : ℕ) (r : Outbox × Bool) (m : ℕ)
      → (end_batch x commits n r).1 ≡ some m
      → (r.1 ≡ true) × (((end_batch x commits n r).0 ≡ r.0) × (n ≡ m))
  end_batch-committed x true n (y, true) m q = (refl, (refl, ground (arith, q)))
  end_batch-committed x false n (y, true) m q = ground (arith, q)
  end_batch-committed x true n (y, false) m q = ground (arith, q)
  end_batch-committed x false n (y, false) m q = ground (arith, q)

  -- The batch of these events.
  end_batch-lt :
      (service : ℕ) (env : BatchEnv) (x : Outbox) (m : ℕ) (events : List OutboxEvent)
      → IsOldest s service env.now x.rows events
      → (end_batch x env.commits (length events) (relay_events s env.delivery 0 events x)).1
        ≡ some (suc m)
      → total
          (end_batch x env.commits (length events) (relay_events s env.delivery 0 events x)).0.rows
        < total x.rows
  end_batch-lt service env x m [] o q =
      let (a, (b, c)) =
        end_batch-committed x env.commits 0 (relay_events s env.delivery 0 [] x) (suc m) q in
      ground (arith, c)
  end_batch-lt service env x m (e ∷ es) o q =
      let r = relay_events s env.delivery 0 (e ∷ es) x in
      let (alive, (same, c)) = end_batch-committed x env.commits (length (e ∷ es)) r (suc m) q in
      let (due, row) = o.due e (head refl) in
      rw same
        (relay_events-lt env.delivery 0 e es x row (IsDue-IsPending service env.now e due) alive)

  run_one_batch-lt :
      (service : ℕ) (env : BatchEnv) (x : Outbox) (m : ℕ)
      → (run_one_batch s service env x).1 ≡ some (suc m)
      → total (run_one_batch s service env x).0.rows < total x.rows
  unfolding run_one_batch
  run_one_batch-lt service env x m q =
      end_batch-lt service env x m (select_pending_outbox_events s service env.now x.rows)
        (select_pending_outbox_events-IsOldest s service env.now x.rows) q

  poll-next :
      (service : ℕ) (env : ℕ → BatchEnv) (fuel n : ℕ) (x : Outbox) (c : Option ℕ)
      → (run_one_batch s service (env n) x).1 ≡ c
      → ((m : ℕ)
          → c ≡ some (suc m)
          → poll s service fuel env (n + 1) (run_one_batch s service (env n) x).0 ≢ out_of_fuel)
      → poll s service (suc fuel) env n x ≢ out_of_fuel
  unfolding poll
  poll-next service env fuel n x none q h = rw (poll, q) (λ c. ground (arith, c))
  poll-next service env fuel n x (some zero) q h = rw (poll, q) (λ c. ground (arith, c))
  poll-next service env fuel n x (some (suc m)) q h = rw (poll, q) (h m refl)

-- The loop of the relay comes to a sleep or to an exception within as many batches as fuel, whatever
-- its publishes do, if the fuel is more than the attempts that the unpublished rows have left, with
-- one more for each of them that is not given up.
pub poll-sleeps :
    (s : OutboxRelaySettings) (service : ℕ) (env : ℕ → BatchEnv) (fuel n : ℕ) (x : Outbox)
    → total s x.rows < fuel
    → poll s service fuel env n x ≢ out_of_fuel
poll-sleeps s service env zero n x h = ground (arith, h)
poll-sleeps s service env (suc fuel) n x h =
    poll-next s service env fuel n x (run_one_batch s service (env n) x).1 refl (λ m q.
      let l = run_one_batch-lt s service (env n) x m q in
      poll-sleeps s service env fuel (n + 1) (run_one_batch s service (env n) x).0
        (omega (arith, l, h)))
