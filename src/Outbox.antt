-- ===== src/Outbox.antt =====
-- packages/outbox: the rows of `outbox_events`, the statements on them (queries.py), and the relay
-- that publishes what is pending (relay.py). Times and waits are whole microseconds; one relay runs
-- for a service, so that no row is locked by another.
pub mod Pending
pub mod Rank
pub mod Delivered
mod Examples
use scalper_v.Base.{
  ℕ, zero, suc, ◌+◌, ◌*◌, ◌^◌, Bool, true, false, Option, none, some, List, [], ◌∷◌, ◌==◌, ◌&&◌,
  leb, ltb, length, take, if◌then◌else◌,
}

pub record OutboxEvent : Type 0 where
  pub id : ℕ
  pub service : ℕ
  pub subject : ℕ
  pub correlation_id : Option ℕ
  pub payload : ℕ
  pub created_at : ℕ
  pub published_at : Option ℕ
  pub attempt_count : ℕ
  pub last_attempt_at : Option ℕ
  pub last_error : Option ℕ
  pub failed_at : Option ℕ

pub record OutboxRelaySettings : Type 0 where
  pub batch_size : ℕ
  pub max_attempts : ℕ
  pub backoff_base : ℕ
  pub backoff_cap : ℕ

-- `insert_outbox_event` with a key that is drawn from the table's counter.
unfoldable pub insert_outbox_event :
    ℕ → ℕ → ℕ → Option ℕ → ℕ → ℕ → List OutboxEvent → List OutboxEvent
insert_outbox_event id service subject correlation payload at rows =
    record {
      id = id;
      service = service;
      subject = subject;
      correlation_id = correlation;
      payload = payload;
      created_at = at;
      published_at = none;
      attempt_count = 0;
      last_attempt_at = none;
      last_error = none;
      failed_at = none;
    }
    ∷ rows

abbrev pub is_none {ℓ} : {A : Type ℓ} → Option A → Bool
is_none none = true
is_none (some a) = false

abbrev pub least : ℕ → ℕ → ℕ
least m n = if leb m n then m else n

abbrev pub backoff : OutboxRelaySettings → ℕ → ℕ
backoff s attempts = least (s.backoff_base * 2 ^ attempts) s.backoff_cap

unfoldable pub rested : OutboxRelaySettings → ℕ → OutboxEvent → Bool
rested s now r = elim r.last_attempt_at [
  | none ↦ true
  | some last ↦ leb (last + backoff s r.attempt_count) now
]

-- The filter of `select_pending_outbox_events`.
unfoldable pub is_due : OutboxRelaySettings → ℕ → ℕ → OutboxEvent → Bool
unfolding rested
is_due s service now r =
    (r.service == service) && (is_none r.published_at && (is_none r.failed_at && rested s now r))

-- By `created_at`; of rows of the same time PostgreSQL may return any first, here the one that
-- stands first.
unfoldable pub insert_by_age : OutboxEvent → List OutboxEvent → List OutboxEvent
insert_by_age r [] = r ∷ []
insert_by_age r (x ∷ xs) =
    let later = insert_by_age r xs in
    if leb r.created_at x.created_at then r ∷ x ∷ xs else x ∷ later

unfoldable pub due_by_age : OutboxRelaySettings → ℕ → ℕ → List OutboxEvent → List OutboxEvent
unfolding is_due insert_by_age
due_by_age s service now [] = []
due_by_age s service now (r ∷ rs) =
    let rest = due_by_age s service now rs in
    if is_due s service now r then insert_by_age r rest else rest

unfoldable pub select_pending_outbox_events :
    OutboxRelaySettings → ℕ → ℕ → List OutboxEvent → List OutboxEvent
unfolding due_by_age
select_pending_outbox_events s service now rows = take s.batch_size (due_by_age s service now rows)

-- `UPDATE outbox_events ... WHERE id = $1`
unfoldable pub update_event : ℕ → (OutboxEvent → OutboxEvent) → List OutboxEvent → List OutboxEvent
update_event id f [] = []
update_event id f (r ∷ rs) = (if r.id == id then f r else r) ∷ update_event id f rs

abbrev pub as_published : ℕ → OutboxEvent → OutboxEvent
as_published at r = record r { published_at = some at }

unfoldable pub mark_outbox_event_published : ℕ → ℕ → List OutboxEvent → List OutboxEvent
unfolding update_event
mark_outbox_event_published id at rows = update_event id (as_published at) rows

abbrev pub as_failed : OutboxRelaySettings → ℕ → ℕ → OutboxEvent → OutboxEvent
as_failed s error at r = record r {
  attempt_count = r.attempt_count + 1;
  last_attempt_at = some at;
  last_error = some error;
  failed_at = if leb s.max_attempts (r.attempt_count + 1) then some at else none;
}

unfoldable pub mark_outbox_event_failed :
    OutboxRelaySettings → ℕ → ℕ → ℕ → List OutboxEvent → List OutboxEvent
unfolding update_event
mark_outbox_event_failed s id error at rows = update_event id (as_failed s error at) rows

-- How a publish ends, and when.
pub data Delivery : Type 0 where
  delivered : ℕ → Delivery
  refused : (error at : ℕ) → Delivery
  cancelled : Delivery

-- The table, and newest first the events that the bus has taken.
pub record Outbox : Type 0 where
  pub rows : List OutboxEvent
  pub sent : List OutboxEvent

-- What a batch meets: its time, the end of each of its publishes, and whether the transaction
-- commits.
pub record BatchEnv : Type 0 where
  pub now : ℕ
  pub delivery : ℕ → Delivery
  pub commits : Bool

-- The events of a batch one after the other; false if the publish was cancelled.
unfoldable pub relay_events :
    OutboxRelaySettings → (ℕ → Delivery) → ℕ → List OutboxEvent → Outbox → Outbox × Bool
unfolding mark_outbox_event_published mark_outbox_event_failed
relay_events s delivery n [] x = (x, true)
relay_events s delivery n (e ∷ es) x = elim (delivery n) [
  | delivered at ↦
      relay_events s delivery (n + 1) es
        (record { rows = mark_outbox_event_published e.id at x.rows; sent = e ∷ x.sent })
  | refused error at ↦
      relay_events s delivery (n + 1) es
        (record x { rows = mark_outbox_event_failed s e.id error at x.rows })
  | cancelled ↦ (x, false)
]

-- The count of the events, or `none` if an exception has left the batch, whose marks are then
-- rolled back.
abbrev pub end_batch : Outbox → Bool → ℕ → Outbox × Bool → Outbox × Option ℕ
end_batch x true n (y, true) = (y, some n)
end_batch x false n (y, true) = (record y { rows = x.rows }, none)
end_batch x commits n (y, false) = (record y { rows = x.rows }, none)

unfoldable pub run_one_batch : OutboxRelaySettings → ℕ → BatchEnv → Outbox → Outbox × Option ℕ
unfolding select_pending_outbox_events relay_events
run_one_batch s service env x =
    let events = select_pending_outbox_events s service env.now x.rows in
    end_batch x env.commits (length events) (relay_events s env.delivery 0 events x)

-- The loop of `run` up to its next sleep. The fuel is the number of batches.
pub data Polling : Type 0 where
  asleep stopped : Outbox → Polling
  out_of_fuel : Polling

unfoldable pub poll : OutboxRelaySettings → ℕ → ℕ → (ℕ → BatchEnv) → ℕ → Outbox → Polling
unfolding run_one_batch
poll s service zero env n x = out_of_fuel
poll s service (suc fuel) env n x =
    let (y, processed) = run_one_batch s service (env n) x in
    elim processed [
      | none ↦ stopped y
      | some count ↦ elim count [ zero ↦ asleep y | suc m ↦ poll s service fuel env (n + 1) y ]
    ]
