-- ===== src/Execution/Halts.antt =====
-- services/execution/app: what the dispatcher makes of the fill of an emergency close.
use scalper_v.Base.{
  arith, ℕ, ◌+◌, ◌<◌, ◌≡◌, refl, sym, ap, ◌∙◌, Bool, true, false, none, some, List, [], ◌∷◌, All,
  ◌==◌, if◌then◌else◌,
}
use scalper_v.Decimal.{Decimal, int}
use scalper_v.Execution.{
  TradeRow, PositionStateRow, Tables, opened, closed, answer, Published, Desk,
}
use scalper_v.Execution.Statements.{
  find_order, find_trade, opened_by, closed_by, find_position, fill_positions, without_position,
  select_open_order_id_by_trade_id, select_order_id_by_exchange_id, select_trade_by_open_order_id,
  select_trade_by_close_order_id, select_position_state, update_position_state_after_fill,
  filled_by, insert_execution, insert_order, insert_trade, update_trade_lifecycle_state,
  update_trade_close, insert_trading_event, update_trade, delete_position_state, closed_with,
  in_state, new_trade,
}
use scalper_v.Base.Int.{pos}
use scalper_v.Execution.Prices.{compute_notional_usd}
use scalper_v.Execution.Emergency.{
  Filled, CloseEnv, emergency_closing, persist_emergency, persist_tracked, emergency_close,
  emergency_close_tracked_position, after_close, tracked_by_order, publish,
}
use scalper_v.Execution.Attribution.{
  ExecutionEvent, Halt, halted, trade_id_mismatch, unattributable_fill, derive_exec_type,
  check_overfill, order_for_insert, by_position,
}
use scalper_v.Execution.Dispatch.{DispatchEnv, transact, process, book, reduce_position}

-- The keys in use are below the counters from which they are drawn.
pub record KeysBelow (t : Tables) : Type 0 where
  pub orders : All (λ r. r.open_order_id < t.next_order) t.trades
  pub trades : All (λ r. r.trade_id < t.next_trade) t.position_state

not_opened :
    (n : ℕ) (ts : List TradeRow)
    → All (λ r. r.open_order_id < n) ts
    → find_trade (opened_by (n + 1)) ts ≡ none
unfolding find_trade
not_opened n [] b = refl
not_opened n (r ∷ rs) b = ground (arith, not_opened n rs b.1)

not_opened-cons :
    (n : ℕ) (r : TradeRow) (ts : List TradeRow)
    → r.open_order_id ≡ n
    → All (λ r. r.open_order_id < n) ts
    → find_trade (opened_by (n + 1)) (r ∷ ts) ≡ none
unfolding find_trade
not_opened-cons n r ts h b = ground (arith, not_opened n ts b)

not_filled :
    (bot symbol n : ℕ) (f : PositionStateRow → PositionStateRow) (rs : List PositionStateRow)
    → All (λ r. r.trade_id < n) rs
    → (fill_positions bot symbol n f rs).0 ≡ 0
unfolding fill_positions
not_filled bot symbol n f [] b = refl
not_filled bot symbol n f (r ∷ rs) b = ground (arith, not_filled bot symbol n f rs b.1)

-- A fill of an order that closed a trade which has no position.
closing_fill-halts :
    (env : DispatchEnv) (bot : ℕ) (e : ExecutionEvent) (t : Tables) (order : ℕ) (r : TradeRow)
    → select_order_id_by_exchange_id e.exchange_order_id t ≡ some order
    → select_trade_by_open_order_id order t ≡ none
    → select_trade_by_close_order_id order t ≡ some r
    → All (λ p. p.trade_id < r.id) t.position_state
    → transact env bot e t ≡ halted trade_id_mismatch
unfolding transact derive_exec_type check_overfill order_for_insert book reduce_position
    insert_execution update_position_state_after_fill
closing_fill-halts env bot e t order r o a b below =
    rw (o, a, b, not_filled bot e.symbol r.id (filled_by e.qty none env.now) t.position_state below)
      refl

-- A fill of an order without a row on a symbol without a position.
stray_fill-halts :
    (env : DispatchEnv) (bot : ℕ) (e : ExecutionEvent) (t : Tables)
    → select_order_id_by_exchange_id e.exchange_order_id t ≡ none
    → select_position_state bot e.symbol t ≡ none
    → transact env bot e t ≡ halted unattributable_fill
unfolding transact derive_exec_type by_position check_overfill order_for_insert
stray_fill-halts env bot e t o p = rw (o, p) refl

if_same {ℓ} : {A : Type ℓ} (m n : ℕ) (x y : A) → m ≡ n → (if m == n then x else y) ≡ x
if_same m n x y h = ground arith

test_same : (n : ℕ) → (n == n) ≡ true
test_same n = ground arith

opened_by-update :
    (n id : ℕ) (g : TradeRow → TradeRow)
    → ((r : TradeRow) → (g r).open_order_id ≡ r.open_order_id)
    → (ts : List TradeRow) → find_trade (opened_by n) ts ≡ none
    → find_trade (opened_by n) (update_trade id g ts) ≡ none
unfolding find_trade update_trade
opened_by-update n id g keeps [] h = refl
opened_by-update n id g keeps (r ∷ rs) h = ground (arith, keeps r, opened_by-update n id g keeps rs)

gone-without :
    (bot symbol : ℕ) (rs : List PositionStateRow)
    → find_position bot symbol (without_position bot symbol rs) ≡ none
unfolding find_position without_position
gone-without bot symbol [] = refl
gone-without bot symbol (r ∷ rs) = ground (arith, gone-without bot symbol rs)

-- Three updates of the row that is first.
module _ (id : ℕ) (f g h : TradeRow → TradeRow) (r : TradeRow) (first : r.id ≡ id)
    (f_id : (f r).id ≡ r.id) (g_id : (g (f r)).id ≡ (f r).id) where
  update_trade-thrice :
      (rs : List TradeRow)
      → update_trade id h (update_trade id g (update_trade id f (r ∷ rs)))
        ≡ h (g (f r)) ∷ update_trade id h (update_trade id g (update_trade id f rs))
  unfolding update_trade
  update_trade-thrice rs = rw (if_same r.id id (f r) r first) (
      rw (if_same (f r).id id (g (f r)) (f r) (f_id ∙ first))
        (rw (if_same (g (f r)).id id (h (g (f r))) (g (f r)) (g_id ∙ f_id ∙ first)) refl))

find_trade-head :
    (test : TradeRow → Bool) (r : TradeRow) (rs : List TradeRow)
    → test r ≡ true
    → find_trade test (r ∷ rs) ≡ some r
unfolding find_trade
find_trade-head test r rs h = rw h refl

-- The fill of the close order that the transaction of an emergency close has recorded.
persist_emergency-halts :
    (f : Filled) (x : ℕ) (notional : Decimal) (at : ℕ) (t : Tables)
    → (env : DispatchEnv) (bot : ℕ) (e : ExecutionEvent) → KeysBelow t
    → e.exchange_order_id ≡ x
    → transact env bot e (persist_emergency f x notional at t).0 ≡ halted trade_id_mismatch
unfolding persist_emergency insert_order insert_trade update_trade_lifecycle_state
    update_trade_close insert_trading_event select_order_id_by_exchange_id
    select_trade_by_open_order_id select_trade_by_close_order_id
persist_emergency-halts f x notional at t env bot e k h =
    let n = t.next_trade in
    let o = t.next_order + 1 in
    let close = closed_with (emergency_closing f at o) (some (int (pos 0))) in
    let row =
      new_trade n f.bot_id f.signal_id t.next_order f.symbol f.side f.fill_price f.qty notional
        f.placed_at none in
    let ts1 = update_trade n (in_state opened) (row ∷ t.trades) in
    let last = in_state closed (close (in_state opened row)) in
    let rest =
      update_trade n (in_state closed)
        (update_trade n close (update_trade n (in_state opened) t.trades)) in
    closing_fill-halts env bot e (persist_emergency f x notional at t).0 o last
      (if_same x e.exchange_order_id _ _ (sym h))
      (opened_by-update o n (in_state closed) (λ r. refl) (update_trade n close ts1)
        (opened_by-update o n close (λ r. refl) ts1
          (opened_by-update o n (in_state opened) (λ r. refl) (row ∷ t.trades)
            (not_opened-cons t.next_order row t.trades refl k.orders))))
      (ap (find_trade (closed_by o)) (
          update_trade-thrice n (in_state opened) close (in_state closed) row refl refl refl
            t.trades)
        ∙ find_trade-head (closed_by o) last rest (test_same o))
      k.trades

persist_tracked-halts :
    (row : PositionStateRow) (order x at : ℕ) (t : Tables) (env : DispatchEnv) (bot : ℕ)
    (e : ExecutionEvent)
    → find_order x t.orders ≡ none
    → e.exchange_order_id ≡ x
    → e.symbol ≡ row.symbol
    → transact env bot e (persist_tracked bot row order x at t).0 ≡ halted unattributable_fill
unfolding persist_tracked update_trade_lifecycle_state update_trade_close insert_trading_event
    delete_position_state select_order_id_by_exchange_id select_position_state
persist_tracked-halts row order x at t env bot e n h s =
    stray_fill-halts env bot e (persist_tracked bot row order x at t).0 (rw h n)
      (rw s (gone-without bot row.symbol t.position_state))

-- An emergency close that went through at the exchange, under the key `x`, and in the tables.
pub data EmergencyClosed (bot x symbol : ℕ) (d d' : Desk) : Type 0 where
  of_placement :
      (env : CloseEnv) (f : Filled) (notional : Decimal)
      → env.reply ≡ answer x
      → env.commits ≡ true
      → compute_notional_usd f.qty f.fill_price ≡ some notional
      → d' ≡ (emergency_close env f d).0
      → EmergencyClosed bot x symbol d d'
  of_watchdog :
      (env : CloseEnv) (row : PositionStateRow) (order : ℕ)
      → env.reply ≡ answer x
      → env.commits ≡ true
      → select_open_order_id_by_trade_id row.trade_id d.tables ≡ some order
      → row.symbol ≡ symbol
      → d' ≡ (emergency_close_tracked_position env bot row d).0
      → EmergencyClosed bot x symbol d d'

process-halted :
    (env : DispatchEnv) (bot : ℕ) (e : ExecutionEvent) (d : Desk) (h : Halt)
    → transact env bot e d.tables ≡ halted h
    → process env bot e d ≡ (d, false)
unfolding process
process-halted env bot e d h q = rw (q, process) refl

send-tables : (b : Bool) (m : Published) (d : Desk) → (publish b m d).tables ≡ d.tables
send-tables true m d = refl
send-tables false m d = refl

placement-tables :
    (env : CloseEnv) (f : Filled) (x : ℕ) (notional : Decimal) (d : Desk)
    → env.reply ≡ answer x
    → env.commits ≡ true
    → compute_notional_usd f.qty f.fill_price ≡ some notional
    → (emergency_close env f d).0.tables ≡ (persist_emergency f x notional env.close_at d.tables).0
unfolding emergency_close after_close
placement-tables env f x notional d r c n =
    rw (r, n, c) (send-tables env.publishes_closed _ _ ∙ send-tables env.publishes_placed _ _)

watchdog-tables :
    (env : CloseEnv) (bot : ℕ) (row : PositionStateRow) (order x : ℕ) (d : Desk)
    → env.reply ≡ answer x
    → env.commits ≡ true
    → select_open_order_id_by_trade_id row.trade_id d.tables ≡ some order
    → (emergency_close_tracked_position env bot row d).0.tables
      ≡ (persist_tracked bot row order x env.close_at d.tables).0
unfolding emergency_close_tracked_position tracked_by_order
watchdog-tables env bot row order x d r c o = rw (r, o, c, send-tables) refl

-- After an emergency close of a placement or of the watchdog that went through at the exchange and
-- in the tables, the fill that the exchange reports of the close order raises in the dispatcher and
-- leaves the desk as it was, whatever its quantity and price. The keys in use are below the
-- counters, and the exchange's key of the close order is not one of an order in the table.
pub process-halts :
    (bot x symbol : ℕ) (d d' : Desk) (env : DispatchEnv) (e : ExecutionEvent)
    → KeysBelow d.tables
    → find_order x d.tables.orders ≡ none
    → EmergencyClosed bot x symbol d d'
    → e.exchange_order_id ≡ x
    → e.symbol ≡ symbol
    → process env bot e d' ≡ (d', false)
process-halts bot x symbol d d' env e k n (of_placement cenv f notional r c q h) i s =
    process-halted env bot e d' trade_id_mismatch (
      rw (h, placement-tables cenv f x notional d r c q)
        (persist_emergency-halts f x notional cenv.close_at d.tables env bot e k i))
process-halts bot x symbol d d' env e k n (of_watchdog cenv row order r c q w h) i s =
    process-halted env bot e d' unattributable_fill (
      rw (h, watchdog-tables cenv bot row order x d r c q)
        (persist_tracked-halts row order x cenv.close_at d.tables env bot e n i (s ∙ sym w)))
