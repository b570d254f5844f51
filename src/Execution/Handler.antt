-- ===== src/Execution/Handler.antt =====
-- services/execution/app/placement.py: the handler of one bot's order requests from the leverage on,
-- with `persist_placement_tx` and the publishers of placement_persist.py. The ring that drops
-- repeated requests is Dedup.
use scalper_v.Base.{ℕ, ◌==◌, Bool, true, false, Option, none, some, ◌∷◌, if◌then◌else◌}
use scalper_v.Domain.{ExchangeMode, live, testnet, paper, demo}
use scalper_v.Decimal.{Decimal}
use scalper_v.Engine.{OrderRequest}
use scalper_v.Quantize.{quantize_price}
use scalper_v.Lifecycle.{protective, FsmParams}
use scalper_v.Execution
use scalper_v.Execution.{
  filled, opened, SlMoved, OrderEvent, order_placed, sl_moved, Tables, TradingEvent, ExchangeError,
  rate_limit_error, auth_error, order_rejected, network_timeout, unknown_state, other_error, Reply,
  answer, fails, market_order, stop_loss, take_profit, orders_event, orders_dlq, shadow_start,
  PositionStateRow, Desk,
}
use scalper_v.Execution.Statements.{
  insert_order, insert_trade, update_trade_lifecycle_state, insert_position_state,
  insert_trading_event,
}
use scalper_v.Execution.Prices.{compute_sl_price, compute_tp_price, compute_notional_usd}
use scalper_v.Execution.Emergency.{
  Ended, returned, raised, Filled, call, publish, event_of, open_order, emergency_close,
}
use scalper_v.Execution.Place.{
  Envelope, OrderPlaceResult, PlaceEnv, Outcome, fill_unresolved, paper_placed, emergency_closed,
  persist_failed, placed, crashed, on_leverage, on_place, Checked, Stage, further, done, preflight,
  Polled, resolved, unresolved, broke, poll_fill_price,
}

-- A position at the exchange with the prices that are to protect it.
pub record Priced : Type 0 where
  pub sl_price : Decimal
  pub tp_price : Decimal
  pub tp_size : Decimal
  pub notional_usd : Decimal

-- What `persist_placement_tx` returns.
pub record Recorded : Type 0 where
  pub tables : Tables
  pub order_placed_payload : OrderEvent
  pub sl_moved_payload : SlMoved
  pub trade_id : ℕ

unfoldable pub with_events : Filled → Decimal → ℕ → ℕ → ℕ → Tables → Recorded
unfolding insert_trading_event
with_events f sl_price at order trade t =
    let event = event_of f.bot_id order f.exchange_order_id f.symbol f.placed_at in
    let moved : SlMoved = record {
      event = event_of f.bot_id order f.exchange_order_id f.symbol at;
      new_sl_price = sl_price;
      sl_type = protective;
    } in
    let e1 : TradingEvent = record {
      occurred_at = f.placed_at;
      bot_id = f.bot_id;
      payload = order_placed event;
    } in
    let e2 : TradingEvent = record {
      occurred_at = at;
      bot_id = f.bot_id;
      payload = sl_moved moved;
    } in
    record {
      tables = insert_trading_event e2 (insert_trading_event e1 t);
      order_placed_payload = event;
      sl_moved_payload = moved;
      trade_id = trade;
    }

abbrev pub position_of : Filled → Priced → ℕ → ℕ → PositionStateRow
position_of f p at trade = record {
  bot_id = f.bot_id;
  symbol = f.symbol;
  trade_id = trade;
  side = f.side;
  entry_price = f.fill_price;
  qty = f.qty;
  remaining_qty = f.qty;
  sl_price = some p.sl_price;
  tp_price = some p.tp_price;
  sl_type = some protective;
  updated_at = at;
}

-- `none` is the violation of the primary key of `position_state`.
unfoldable pub persist_placement_tx : Filled → Priced → FsmParams → ℕ → Tables → Option Recorded
unfolding insert_order insert_trade update_trade_lifecycle_state insert_position_state with_events
persist_placement_tx f p params at t =
    let row = record (open_order f at) { status = filled; closed_at = none } in
    let (order, t1) = insert_order row t in
    let (trade, t2) =
      insert_trade f.bot_id f.signal_id order f.symbol f.side f.fill_price f.qty p.notional_usd
        f.placed_at (some params) t1 in
    let t3 = update_trade_lifecycle_state trade opened t2 in
    elim (insert_position_state (position_of f p at trade) t3) [
      | none ↦ none
      | some t4 ↦ some (with_events f p.sl_price at order trade t4)
    ]

abbrev pub params_of : OrderRequest → FsmParams
params_of r = record {
  be_trigger = r.execution.be_trigger;
  be_sl_level = r.execution.be_sl_level;
  trail_pct = r.execution.trail_pct;
}

-- A publish that needs variants in the request.
abbrev pub start_shadow : Bool → Envelope → ℕ → Bool → Decimal → Desk → Desk
start_shadow sent v trade is_live qty d =
    if v.shadow_variants == 0 then d else publish sent (shadow_start trade is_live qty) d

-- Once the transaction has committed.
unfoldable pub after_commit : PlaceEnv → Envelope → Decimal → Recorded → Desk → Desk
after_commit env v qty w d =
    let d1 =
      publish env.publishes_placed (orders_event (order_placed w.order_placed_payload))
        (record d { tables = w.tables }) in
    let d2 = publish env.publishes_moved (orders_event (sl_moved w.sl_moved_payload)) d1 in
    let d3 = start_shadow env.publishes_shadow v w.trade_id true qty d2 in
    record d3 { monitors = w.trade_id ∷ d3.monitors }

unfoldable pub committed : PlaceEnv → Envelope → Decimal → Option Recorded → Desk → Desk × Outcome
unfolding after_commit
committed env v qty none d = (d, persist_failed)
committed env v qty (some w) d =
    if env.commits then (after_commit env v qty w d, placed) else (d, persist_failed)

unfoldable pub record_placement : PlaceEnv → Envelope → Filled → Priced → Desk → Desk × Outcome
unfolding committed persist_placement_tx
record_placement env v f p d =
    committed env v f.qty (persist_placement_tx f p (params_of v.request) env.sl_set_at d.tables) d

-- The errors that the two calls of `set_trading_stop` catch.
abbrev pub is_exchange_error : ExchangeError → Bool
is_exchange_error other_error = false
is_exchange_error auth_error = true
is_exchange_error order_rejected = true
is_exchange_error network_timeout = true
is_exchange_error rate_limit_error = true
is_exchange_error unknown_state = true

unfoldable pub after_take_profit :
    PlaceEnv → Envelope → Filled → Priced → Reply (Unit {0}) → Desk → Desk × Outcome
unfolding record_placement
after_take_profit env v f p (answer u) d = record_placement env v f p d
after_take_profit env v f p (fails e) d =
    if is_exchange_error e then record_placement env v f p d else (d, crashed)

abbrev pub of_ended : Desk × Ended → Desk × Outcome
of_ended (d, returned) = (d, emergency_closed)
of_ended (d, raised) = (d, crashed)

unfoldable pub after_stop_loss :
    PlaceEnv → Envelope → Filled → Priced → Reply (Unit {0}) → Desk → Desk × Outcome
unfolding after_take_profit emergency_close
after_stop_loss env v f p (answer u) d =
    after_take_profit env v f p env.sets_tp (call (take_profit f.symbol p.tp_price p.tp_size) d)
after_stop_loss env v f p (fails e) d =
    if is_exchange_error e then of_ended (emergency_close env.closes f d) else (d, crashed)

-- The branch of a live, testnet or demo bot.
unfoldable pub protect : PlaceEnv → Envelope → Filled → Priced → Desk → Desk × Outcome
unfolding after_stop_loss
protect env v f p d = after_stop_loss env v f p env.sets_sl (call (stop_loss f.symbol p.sl_price) d)

unfoldable pub paper_shadow : PlaceEnv → Envelope → Decimal → Option ℕ → Desk → Desk
paper_shadow env v qty none d = d
paper_shadow env v qty (some trade) d = start_shadow env.publishes_shadow v trade false qty d

unfoldable pub paper_take_profit :
    PlaceEnv → Envelope → Decimal → Option ℕ → Reply (Unit {0}) → Desk → Desk × Outcome
unfolding paper_shadow
paper_take_profit env v qty trade (answer u) d = (paper_shadow env v qty trade d, paper_placed)
paper_take_profit env v qty trade (fails e) d = (d, crashed)

unfoldable pub paper_stop_loss :
    PlaceEnv → Envelope → Filled → Priced → Option ℕ → Reply (Unit {0}) → Desk → Desk × Outcome
unfolding paper_take_profit
paper_stop_loss env v f p trade (answer u) d =
    paper_take_profit env v f.qty trade env.sets_tp
      (call (take_profit f.symbol p.tp_price p.tp_size) d)
paper_stop_loss env v f p trade (fails e) d = (d, crashed)

unfoldable pub protect_paper :
    PlaceEnv → Envelope → Filled → Priced → Option ℕ → Desk → Desk × Outcome
unfolding paper_stop_loss
protect_paper env v f p trade d =
    paper_stop_loss env v f p trade env.sets_sl (call (stop_loss f.symbol p.sl_price) d)

-- `quantize_price` and the notional may raise, which nothing catches.
pub prices : OrderRequest → Checked → Decimal → Option Priced
unfolding quantize_price compute_sl_price compute_tp_price compute_notional_usd
prices r c fill =
    let sl =
      quantize_price (compute_sl_price r.side fill r.execution.sl_pct) r.side c.info.tick_size in
    let tp =
      quantize_price (compute_tp_price r.side fill r.execution.tp_pct) r.side c.info.tick_size in
    elim sl [
      | none ↦ none
      | some sl_price ↦ elim tp [
        | none ↦ none
        | some tp_price ↦ elim (compute_notional_usd c.qty fill) [
          | none ↦ none
          | some notional ↦ some (record {
            sl_price = sl_price;
            tp_price = tp_price;
            tp_size = c.tp_size;
            notional_usd = notional;
          })
        ]
      ]
    ]

abbrev pub filled_order : ℕ → Envelope → OrderPlaceResult → Decimal → Decimal → Filled
filled_order bot v w fill qty = record {
  bot_id = bot;
  signal_id = v.request.signal_id;
  symbol = v.request.symbol;
  side = v.request.side;
  correlation_id = v.correlation_id;
  published_at = v.published_at;
  exchange_order_id = w.exchange_order_id;
  placed_at = w.placed_at;
  fill_price = fill;
  qty = qty;
}

unfoldable pub after_prices :
    PlaceEnv → ExchangeMode → Envelope → Filled → Option ℕ → Option Priced → Desk → Desk × Outcome
unfolding protect protect_paper
after_prices env mode v f trade none d = (d, crashed)
after_prices env paper v f trade (some p) d = protect_paper env v f p trade d
after_prices env live v f trade (some p) d = protect env v f p d
after_prices env testnet v f trade (some p) d = protect env v f p d
after_prices env demo v f trade (some p) d = protect env v f p d

unfoldable pub after_polls :
    PlaceEnv → ℕ → Envelope → Checked → OrderPlaceResult → Polled → Desk → Desk × Outcome
unfolding after_prices prices
after_polls env bot v c w unresolved d =
    (publish env.publishes_dlq (orders_dlq bot) d, fill_unresolved)
after_polls env bot v c w broke d = (d, crashed)
after_polls env bot v c w (resolved fill) d =
    after_prices env v.request.mode v (filled_order bot v w fill c.qty) w.paper_trade_id
      (prices v.request c fill) d

unfoldable pub after_place :
    PlaceEnv → ℕ → ℕ → Envelope → Checked → Reply OrderPlaceResult → Desk → Desk × Outcome
unfolding after_polls poll_fill_price
after_place env attempts bot v c (fails e) d = (d, on_place e)
after_place env attempts bot v c (answer w) d =
    after_polls env bot v c w (poll_fill_price env.fill_price attempts 0) d

unfoldable pub after_leverage :
    PlaceEnv → ℕ → ℕ → Envelope → Checked → Reply (Unit {0}) → Desk → Desk × Outcome
unfolding after_place
after_leverage env attempts bot v c (fails e) d = (d, on_leverage e)
after_leverage env attempts bot v c (answer u) d =
    after_place env attempts bot v c env.placed
      (call (market_order v.request.symbol v.request.side c.qty false) d)

unfoldable pub after_preflight : PlaceEnv → ℕ → ℕ → Envelope → Stage Checked → Desk → Desk × Outcome
unfolding after_leverage
after_preflight env attempts bot v (done o) d = (d, o)
after_preflight env attempts bot v (further c) d =
    after_leverage env attempts bot v c env.set_leverage
      (call (Execution.set_leverage v.request.symbol v.request.execution.leverage) d)

-- The handler of the bot `bot`, with as many polls of the fill price as `attempts`.
unfoldable pub handle : PlaceEnv → ℕ → ℕ → Envelope → Desk → Desk × Outcome
unfolding after_preflight preflight
handle env attempts bot v d = after_preflight env attempts bot v (preflight env v.request) d
