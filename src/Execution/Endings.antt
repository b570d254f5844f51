-- ===== src/Execution/Endings.antt =====
-- services/execution/app/placement.py: what the handler of a request has done at the exchange and
-- in the tables, by the outcome that it ends with.
pub mod Refusals
mod Silent
mod Stops
pub mod Walk
use scalper_v.Base.{ℕ, ◌∷◌, ◌≡◌, ◌⊎◌, Bool, true, false, Option, none, some, List}
use scalper_v.Domain.{ExchangeMode, paper}
use scalper_v.Decimal.{Decimal}
use scalper_v.Execution
use scalper_v.Execution.{
  Tables, Reply, answer, fails, market_order, stop_loss, take_profit, orders_dlq, ExchangeCall,
  ExchangeError, Desk,
}
use scalper_v.Execution.Prices.{opposite_side}
use scalper_v.Execution.Emergency.{Filled, call, publish, persist_emergency}
use scalper_v.Execution.Place.{
  Envelope, OrderPlaceResult, PlaceEnv, Outcome, sizing_fetch_failed, sizing_compute_failed,
  sub_lowest_tier, qty_invalid, instrument_failed, tp_unsatisfiable, leverage_failed, place_failed,
  fill_unresolved, paper_placed, emergency_closed, persist_failed, placed, crashed, Checked,
  further, preflight, resolved, unresolved, poll_fill_price,
}
use scalper_v.Execution.Handler.{
  Priced, Recorded, persist_placement_tx, params_of, prices, filled_order,
}

-- The calls of an opening: for the leverage, then for the order.
abbrev pub opening : Envelope → Decimal → Desk → Desk
opening v q d =
    call (market_order v.request.symbol v.request.side q false)
      (call (Execution.set_leverage v.request.symbol v.request.execution.leverage) d)

abbrev pub stopped : Envelope → Decimal → Priced → Desk → Desk
stopped v q p d = call (stop_loss v.request.symbol p.sl_price) (opening v q d)

abbrev pub protected : Envelope → Decimal → Priced → Desk → Desk
protected v q p d = call (take_profit v.request.symbol p.tp_price p.tp_size) (stopped v q p d)

-- A request whose order was accepted, whose fill price was seen and whose prices were computed.
pub record Fill (env : PlaceEnv) (attempts : ℕ) (v : Envelope) : Type 0 where
  pub checked : Checked
  pub result : OrderPlaceResult
  pub price : Decimal
  pub targets : Priced
  pub checks : preflight env v.request ≡ further checked
  pub levered : env.set_leverage ≡ answer tt
  pub accepted : env.placed ≡ answer result
  pub seen : poll_fill_price env.fill_price attempts 0 ≡ resolved price
  pub computed : prices v.request checked price ≡ some targets

abbrev pub order_of :
    {env : PlaceEnv} {attempts : ℕ} {v : Envelope} → ℕ → Fill env attempts v → Filled
order_of {v = v} bot x = filled_order bot v x.result x.price x.checked.qty

-- Nothing is recorded, published or monitored.
abbrev pub Untouched : Desk → Desk → Type 0
Untouched d d' = (d'.tables ≡ d.tables) × (d'.published ≡ d.published) × (d'.monitors ≡ d.monitors)

-- The tables after an emergency close: as they were, or with the trade opened and closed.
abbrev pub Flat : PlaceEnv → Filled → Tables → Tables → Type 0
Flat env f t t' =
    (t' ≡ t)
    ⊎ (x : ℕ) × (notional : Decimal) × (env.closes.reply ≡ answer x)
      × (t' ≡ (persist_emergency f x notional env.closes.close_at t).0)

module _ (env : PlaceEnv) (attempts bot : ℕ) (v : Envelope) (d d' : Desk) where
  pub record PlacedLive : Type 0 where
    pub fill : Fill env attempts v
    pub stop_set : env.sets_sl ≡ answer tt
    pub row : Recorded
    pub recorded :
        persist_placement_tx
          (order_of bot fill)
          fill.targets
          (params_of v.request)
          env.sl_set_at
          d.tables
        ≡ some row
    pub tables : d'.tables ≡ row.tables
    pub calls : d'.calls ≡ (protected v fill.checked.qty fill.targets d).calls
    pub monitored : d'.monitors ≡ row.trade_id ∷ d.monitors

  -- A position at the exchange with its stop, of which the tables know nothing.
  pub record Unrecorded : Type 0 where
    pub fill : Fill env attempts v
    pub stop_set : env.sets_sl ≡ answer tt
    pub untouched : Untouched d d'
    pub calls : d'.calls ≡ (protected v fill.checked.qty fill.targets d).calls

  pub record Flattened : Type 0 where
    pub fill : Fill env attempts v
    pub error : ExchangeError
    pub no_stop : env.sets_sl ≡ fails error
    pub tables : Flat env (order_of bot fill) d.tables d'.tables
    pub calls :
        d'.calls
        ≡ market_order v.request.symbol (opposite_side v.request.side) fill.checked.qty true
          ∷ (stopped v fill.checked.qty fill.targets d).calls
    pub monitors : d'.monitors ≡ d.monitors

  pub record PaperPlaced : Type 0 where
    pub fill : Fill env attempts v
    pub mode : v.request.mode ≡ paper
    pub stop_set : env.sets_sl ≡ answer tt
    pub tables : d'.tables ≡ d.tables
    pub calls : d'.calls ≡ (protected v fill.checked.qty fill.targets d).calls
    pub monitors : d'.monitors ≡ d.monitors

  -- What a desk `d` has become under each outcome.
  abbrev pub Leaves : Outcome → Type 0
  Leaves sizing_fetch_failed = d' ≡ d
  Leaves sizing_compute_failed = d' ≡ d
  Leaves sub_lowest_tier = d' ≡ d
  Leaves qty_invalid = d' ≡ d
  Leaves instrument_failed = d' ≡ d
  Leaves tp_unsatisfiable = d' ≡ d
  Leaves leverage_failed =
      d' ≡ call (Execution.set_leverage v.request.symbol v.request.execution.leverage) d
  Leaves place_failed =
      (c : Checked) × (preflight env v.request ≡ further c) × (d' ≡ opening v c.qty d)
  Leaves fill_unresolved =
      (c : Checked) × (preflight env v.request ≡ further c)
      × (poll_fill_price env.fill_price attempts 0 ≡ unresolved)
      × (d' ≡ publish env.publishes_dlq (orders_dlq bot) (opening v c.qty d))
  Leaves paper_placed = PaperPlaced
  Leaves emergency_closed = Flattened
  Leaves persist_failed = Unrecorded
  Leaves placed = PlacedLive
  Leaves crashed = Untouched d d'

-- The desk and the outcome that a stage leads to are of the ending's form.
abbrev pub Ends : PlaceEnv → ℕ → ℕ → Envelope → Desk → Desk × Outcome → Type 0
Ends env attempts bot v d (d', o) = Leaves env attempts bot v d d' o
