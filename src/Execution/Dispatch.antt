-- ===== src/Execution/Dispatch.antt =====
-- services/execution/app/dispatcher.py, with `reconcile_close` of reconcile.py: a fill that the
-- exchange reports is attributed to a trade and booked in one transaction. An exception rolls the
-- transaction back and ends the stream of the bot.
use scalper_v.Base.{ℕ, Bool, true, false, Option, none, some, List, [], ◌∷◌, ◌==◌, if◌then◌else◌}
use scalper_v.Base.Int.{pos}
use scalper_v.Decimal.{Decimal, int, ◌=?◌, ◌-ᵈ◌}
use scalper_v.Lifecycle.{SlType, trail}
use scalper_v.Dedup.{consume}
use scalper_v.Execution.{
  CloseReason, manual, by_sl, by_trail, by_unknown, partially_closed, closed, Closing,
  PositionStateRow, ExecType, open_fill, partial_tp_fill, sl_fill, trail_fill, close_fill,
  unknown_fill, ExecutionRow, OrderClosed, order_closed, Tables, Reply, answer, fails, orders_event,
  trade_closed, Desk,
}
use scalper_v.Execution.Statements.{
  select_order_id_by_exchange_id, select_position_state, select_open_order_id_by_trade_id,
  select_order_meta_by_id, insert_execution, update_position_state_after_fill,
  update_trade_fees_incremental, update_trade_close, update_trade_lifecycle_state,
  delete_position_state,
}
use scalper_v.Execution.Emergency.{event_of, publish}
use scalper_v.Execution.Attribution.{
  Attribution, ExecutionEvent, Tx, check_overfill, derive_exec_type, halted, not_committed, ok,
  order_for_insert, order_meta_missing, orphan_trade, snapshot_failed, trade_id_mismatch,
  unattributable_fill, ◌>>=◌,
}

abbrev pub new_sl_type : ExecType → Option SlType
new_sl_type partial_tp_fill = some trail
new_sl_type open_fill = none
new_sl_type sl_fill = none
new_sl_type trail_fill = none
new_sl_type close_fill = none
new_sl_type unknown_fill = none

abbrev pub is_open_fill : ExecType → Bool
is_open_fill open_fill = true
is_open_fill partial_tp_fill = false
is_open_fill sl_fill = false
is_open_fill trail_fill = false
is_open_fill close_fill = false
is_open_fill unknown_fill = false

unfoldable pub one_row : ℕ × Tables → Tx Tables
one_row (count, t) = if count == 0 then halted trade_id_mismatch else ok t

-- The fill's quantity off the position, unless it opened it.
unfoldable pub reduce_position : ℕ → ℕ → ExecutionEvent → ExecType → ℕ → Tables → Tx Tables
unfolding one_row update_position_state_after_fill
reduce_position bot now e kind trade t =
    if is_open_fill kind
    then ok t
    else one_row
        (update_position_state_after_fill bot e.symbol trade e.qty (new_sl_type kind) now t)

-- `_EXEC_TYPE_TO_CLOSE_REASON`
abbrev pub close_reason_of : ExecType → CloseReason
close_reason_of close_fill = manual
close_reason_of sl_fill = by_sl
close_reason_of trail_fill = by_trail
close_reason_of unknown_fill = by_unknown
close_reason_of open_fill = by_unknown
close_reason_of partial_tp_fill = by_unknown

-- The replies to the two snapshots of the closed profit, the time, and whether the transaction
-- commits and each publish succeeds.
pub record DispatchEnv : Type 0 where
  pub now : ℕ
  pub before : Reply Decimal
  pub after : Reply Decimal
  pub commits : Bool
  pub publishes_closed : Bool
  pub publishes_trade : Bool

abbrev pub snapshot : Reply Decimal → Tx Decimal
snapshot (answer total) = ok total
snapshot (fails e) = halted snapshot_failed

abbrev pub close_order_of : Option ℕ → Option ℕ → Tx ℕ
close_order_of (some order) resolved = ok order
close_order_of none none = halted orphan_trade
close_order_of none (some order) = ok order

abbrev pub meta_of : Option (ℕ × ℕ) → Tx (ℕ × ℕ)
meta_of none = halted order_meta_missing
meta_of (some meta) = ok meta

-- What a booked fill leaves to publish: the close of a trade.
abbrev pub Closed : Type 0
Closed = Option (OrderClosed × ℕ)

-- The rows and the event of the close of a trade.
unfoldable pub closed_rows :
    ℕ → ExecutionEvent → ExecType → ℕ → ℕ → ℕ → Decimal → Tables → Tables × Closed
unfolding update_trade_close update_trade_lifecycle_state delete_position_state
closed_rows bot e kind trade close_order exchange_id delta t =
    let closing : Closing = record {
      exit_price = e.price;
      realized_pnl = delta;
      closed_at = e.executed_at;
      close_reason = close_reason_of kind;
      close_order_id = close_order;
    } in
    let t1 = update_trade_close trade closing none t in
    let t2 = update_trade_lifecycle_state trade closed t1 in
    let payload : OrderClosed = record {
      event = event_of bot close_order exchange_id e.symbol e.executed_at;
      realized_pnl = delta;
      close_reason = close_reason_of kind;
    } in
    (delete_position_state bot e.symbol t2, some (payload, trade))

unfoldable pub reconcile_close :
    DispatchEnv → ℕ → ExecutionEvent → ExecType → ℕ → Option ℕ → Tables → Tx (Tables × Closed)
unfolding select_open_order_id_by_trade_id select_order_meta_by_id ◌-ᵈ◌ closed_rows
reconcile_close env bot e kind trade order t = do
  close_order ← close_order_of order (select_open_order_id_by_trade_id trade t)
  (correlation, exchange_id) ← meta_of (select_order_meta_by_id close_order t)
  before_total ← snapshot env.before
  after_total ← snapshot env.after
  ok (closed_rows bot e kind trade close_order exchange_id (after_total -ᵈ before_total) t)

unfoldable pub by_remaining :
    DispatchEnv
    → ℕ
    → ExecutionEvent
    → ExecType
    → ℕ
    → Option ℕ
    → Option PositionStateRow
    → Tables
    → Tx (Tables × Closed)
unfolding reconcile_close update_trade_lifecycle_state ◌=?◌
by_remaining env bot e kind trade order none t = ok (t, none)
by_remaining env bot e kind trade order (some ps) t =
    if ps.remaining_qty =? int (pos 0)
    then reconcile_close env bot e kind trade order t
    else ok (update_trade_lifecycle_state trade partially_closed t, none)

-- The close of the trade if nothing remains of the position, which an opening fill leaves alone.
unfoldable pub settle :
    DispatchEnv → ℕ → ExecutionEvent → ExecType → ℕ → Option ℕ → Tables → Tx (Tables × Closed)
unfolding by_remaining select_position_state
settle env bot e kind trade order t =
    if is_open_fill kind
    then ok (t, none)
    else by_remaining env bot e kind trade order (select_position_state bot e.symbol t) t

-- A fill with its order and its trade: every fill that gets here has one.
unfoldable pub book :
    DispatchEnv → ℕ → ExecutionEvent → Option ℕ → Attribution → ℕ → Tables → Tx (Tables × Closed)
unfolding insert_execution reduce_position update_trade_fees_incremental settle
book env bot e order (kind, none) order_id t = halted unattributable_fill
book env bot e order (kind, some trade) order_id t = do
  let row : ExecutionRow = record {
    exchange_exec_id = e.exchange_exec_id;
    order_id = order_id;
    trade_id = some trade;
    bot_id = bot;
    symbol = e.symbol;
    side = e.side;
    price = e.price;
    qty = e.qty;
    fee = e.fee;
    exec_type = kind;
    executed_at = e.executed_at;
  }
  t1 ← reduce_position bot env.now e kind trade (insert_execution row t)
  settle env bot e kind trade order (update_trade_fees_incremental trade e.fee t1)

abbrev pub commit : Bool → Tables × Closed → Tx (Tables × Closed)
commit true r = ok r
commit false r = halted not_committed

-- The transaction of `_process`.
unfoldable pub transact : DispatchEnv → ℕ → ExecutionEvent → Tables → Tx (Tables × Closed)
unfolding select_order_id_by_exchange_id derive_exec_type check_overfill order_for_insert book
transact env bot e t = do
  let order = select_order_id_by_exchange_id e.exchange_order_id t
  let kind = derive_exec_type bot e order t
  checked ← check_overfill bot e kind t
  order_id ← order_for_insert order kind.1 t
  booked ← book env bot e order kind order_id t
  commit env.commits booked

-- `emit_post_commit_close_event`
unfoldable pub emit_close : DispatchEnv → Closed → Desk → Desk
emit_close env none d = d
emit_close env (some (payload, trade)) d =
    publish env.publishes_trade (trade_closed payload.event.bot_id trade)
      (publish env.publishes_closed (orders_event (order_closed payload)) d)

-- The publishes once the transaction has committed; one that raised leaves the desk as it was.
unfoldable pub processed : DispatchEnv → Desk → Tx (Tables × Closed) → Desk × Bool
unfolding emit_close
processed env d (ok (t, close)) = (emit_close env close (record d { tables = t }), true)
processed env d (halted h) = (d, false)

-- `_process`: the desk, and whether it returns.
unfoldable pub process : DispatchEnv → ℕ → ExecutionEvent → Desk → Desk × Bool
unfolding transact processed
process env bot e d = processed env d (transact env bot e d.tables)

-- The dispatcher of one bot; once it does not run, it takes no further event.
pub record Dispatcher : Type 0 where
  pub seen : List ℕ
  pub running : Bool
  pub desk : Desk

unfoldable pub take_event : ℕ → ℕ → DispatchEnv → ExecutionEvent → Dispatcher → Dispatcher
unfolding consume process
take_event capacity bot env e x =
    let (fresh, seen) = consume capacity e.exchange_exec_id x.seen in
    let (d, alive) = process env bot e x.desk in
    if fresh then record { seen = seen; running = alive; desk = d } else record x { seen = seen }

-- `run_dispatcher_for_bot` over the events of the stream.
unfoldable pub run_dispatcher :
    ℕ → ℕ → List (DispatchEnv × ExecutionEvent) → Dispatcher → Dispatcher
unfolding take_event
run_dispatcher capacity bot [] x = x
run_dispatcher capacity bot ((env, e) ∷ events) x =
    let rest = run_dispatcher capacity bot events (take_event capacity bot env e x) in
    if x.running then rest else x
