-- ===== src/Outbox/Examples.antt =====
-- The relay at a table of three events.
use scalper_v.Base.{arith, ℕ, zero, suc, ◌+◌, ◌≡◌, ◌≢◌, refl, true, none, some, List, [], ◌∷◌}
use scalper_v.Outbox.{
  OutboxEvent, OutboxRelaySettings, select_pending_outbox_events, delivered, refused, Outbox,
  BatchEnv, run_one_batch, out_of_fuel, poll,
}
use scalper_v.Outbox.Pending.{IsOldest, select_pending_outbox_events-IsOldest}
use scalper_v.Outbox.Rank.{total, poll-sleeps}
use scalper_v.Outbox.Delivered.{AllEarned, stay, and_batch, Steps-AllEarned}

abbrev settings : OutboxRelaySettings
settings = record { batch_size = 2; max_attempts = 2; backoff_base = 2000; backoff_cap = 60000 }

abbrev event : ℕ → ℕ → OutboxEvent
event id at = record {
  id = id;
  service = 1;
  subject = 5;
  correlation_id = none;
  payload = 8;
  created_at = at;
  published_at = none;
  attempt_count = 0;
  last_attempt_at = none;
  last_error = none;
  failed_at = none;
}

abbrev rows : List OutboxEvent
rows =
    event 3 300
    ∷ record (event 2 200) { last_attempt_at = some 900; attempt_count = 1 }
    ∷ event 1 100
    ∷ []

abbrev outbox : Outbox
outbox = record { rows = rows; sent = [] }

-- The first publish of each batch is taken, the second is refused.
abbrev batch : ℕ → BatchEnv
batch n = record {
  now = 1000 + n;
  delivery = λ i. elim i [ zero ↦ delivered 1500 | suc m ↦ refused 7 1600 ];
  commits = true;
}

-- The wait of the second event is not over.
select_pending-oldest_first :
    select_pending_outbox_events settings 1 1000 rows ≡ event 1 100 ∷ event 3 300 ∷ []
unfolding select_pending_outbox_events
select_pending-oldest_first = refl

select_pending_outbox_events-IsOldest_example :
    IsOldest settings 1 1000 rows (select_pending_outbox_events settings 1 1000 rows)
select_pending_outbox_events-IsOldest_example =
    select_pending_outbox_events-IsOldest settings 1 1000 rows

run_one_batch-two : (run_one_batch settings 1 (batch 0) outbox).1 ≡ some 2
unfolding run_one_batch
run_one_batch-two = refl

poll-sleeps_example : poll settings 1 9 batch 0 outbox ≢ out_of_fuel
unfolding total
poll-sleeps_example = poll-sleeps settings 1 batch 9 0 outbox (omega arith)

Steps-AllEarned_example : AllEarned settings (run_one_batch settings 1 (batch 0) outbox).0
Steps-AllEarned_example =
    Steps-AllEarned settings outbox (run_one_batch settings 1 (batch 0) outbox).0
      (and_batch outbox 1 (batch 0) stay)
      (
        (λ e. ground (arith, e), λ e. ground (arith, e)),
        (
          (λ e. ground (arith, e), λ e. ground (arith, e)),
          ((λ e. ground (arith, e), λ e. ground (arith, e)), tt),
        ),
      )
