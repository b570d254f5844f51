-- ===== src/Execution/Endings/Walk.antt =====
-- services/execution/app/placement.py: the handler's stages up to the fill price, and the whole.
use scalper_v.Base.{ℕ, ◌≡◌, refl, Option, none, some}
use scalper_v.Domain.{ExchangeMode, live, testnet, paper, demo}
use scalper_v.Decimal.{Decimal}
use scalper_v.Execution
use scalper_v.Execution.{
  Tables, Reply, answer, fails, market_order, stop_loss, take_profit, orders_dlq, ExchangeCall,
  ExchangeError, rate_limit_error, auth_error, order_rejected, network_timeout, unknown_state,
  other_error, Published, Desk, orders_event, order_placed, order_closed, sl_moved, shadow_start,
}
use scalper_v.Execution.Emergency.{call}
use scalper_v.Execution.Place.{
  Envelope, OrderPlaceResult, PlaceEnv, Outcome, sizing_fetch_failed, sizing_compute_failed,
  sub_lowest_tier, qty_invalid, instrument_failed, tp_unsatisfiable, leverage_failed, place_failed,
  fill_unresolved, paper_placed, emergency_closed, persist_failed, placed, crashed, Checked, Stage,
  further, done, preflight, Polled, resolved, unresolved, broke, poll_fill_price,
}
use scalper_v.Execution.Handler.{
  Priced, prices, filled_order, protect, protect_paper, after_prices, after_polls, after_place,
  after_leverage, after_preflight, handle,
}
use scalper_v.Execution.Endings.{Ends, opening, Fill, Leaves}
use scalper_v.Execution.Endings.Refusals.{IsRefusal, Refuses, preflight-Refuses}
use scalper_v.Execution.Endings.Stops.{stop_loss-Ends, paper-Ends}

module _ (env : PlaceEnv) (attempts bot : ℕ) (v : Envelope) (d : Desk) where
  abbrev fill_from :
      (c : Checked) (w : OrderPlaceResult) (price : Decimal) (p : Priced)
      → preflight env v.request ≡ further c
      → env.set_leverage ≡ answer tt
      → env.placed ≡ answer w
      → poll_fill_price env.fill_price attempts 0 ≡ resolved price
      → prices v.request c price ≡ some p
      → Fill env attempts v
  fill_from c w price p a b e f g = record {
    checked = c;
    result = w;
    price = price;
    targets = p;
    checks = a;
    levered = b;
    accepted = e;
    seen = f;
    computed = g;
  }

  prices-Ends :
      (c : Checked) (w : OrderPlaceResult) (price : Decimal)
      → preflight env v.request ≡ further c
      → env.set_leverage ≡ answer tt
      → env.placed ≡ answer w
      → poll_fill_price env.fill_price attempts 0 ≡ resolved price
      → (p : Option Priced) → prices v.request c price ≡ p
      → (m : ExchangeMode) → v.request.mode ≡ m
      → Ends env attempts bot v d (
          after_prices env m v
            (filled_order bot v w price c.qty)
            w.paper_trade_id
            p
            (opening v c.qty d))
  unfolding after_prices protect protect_paper
  prices-Ends c w price a b e f none g m h = (refl, refl, refl)
  prices-Ends c w price a b e f (some p) g paper h =
      paper-Ends env attempts bot v d (fill_from c w price p a b e f g) env.sets_sl h refl
  prices-Ends c w price a b e f (some p) g live h =
      stop_loss-Ends env attempts bot v d (fill_from c w price p a b e f g) env.sets_sl refl
  prices-Ends c w price a b e f (some p) g testnet h =
      stop_loss-Ends env attempts bot v d (fill_from c w price p a b e f g) env.sets_sl refl
  prices-Ends c w price a b e f (some p) g demo h =
      stop_loss-Ends env attempts bot v d (fill_from c w price p a b e f g) env.sets_sl refl

  polls-Ends :
      (c : Checked) (w : OrderPlaceResult)
      → preflight env v.request ≡ further c
      → env.set_leverage ≡ answer tt
      → env.placed ≡ answer w
      → (p : Polled) → poll_fill_price env.fill_price attempts 0 ≡ p
      → Ends env attempts bot v d (after_polls env bot v c w p (opening v c.qty d))
  unfolding after_polls
  polls-Ends c w a b e unresolved q = (c, a, q, refl)
  polls-Ends c w a b e broke q = (refl, refl, refl)
  polls-Ends c w a b e (resolved price) q =
      prices-Ends c w price a b e q (prices v.request c price) refl v.request.mode refl

  place-Ends :
      (c : Checked)
      → preflight env v.request ≡ further c
      → env.set_leverage ≡ answer tt
      → (r : Reply OrderPlaceResult) → env.placed ≡ r
      → Ends env attempts bot v d (after_place env attempts bot v c r (opening v c.qty d))
  unfolding after_place
  place-Ends c a b (answer w) q =
      polls-Ends c w a b q (poll_fill_price env.fill_price attempts 0) refl
  place-Ends c a b (fails rate_limit_error) q = (c, a, refl)
  place-Ends c a b (fails auth_error) q = (c, a, refl)
  place-Ends c a b (fails order_rejected) q = (c, a, refl)
  place-Ends c a b (fails network_timeout) q = (c, a, refl)
  place-Ends c a b (fails unknown_state) q = (c, a, refl)
  place-Ends c a b (fails other_error) q = (refl, refl, refl)

  leverage-Ends :
      (c : Checked)
      → preflight env v.request ≡ further c
      → (r : Reply (Unit {0})) → env.set_leverage ≡ r
      → Ends env attempts bot v d (
          after_leverage env attempts bot v c r
            (call (Execution.set_leverage v.request.symbol v.request.execution.leverage) d))
  unfolding after_leverage
  leverage-Ends c a (answer u) q = place-Ends c a q env.placed refl
  leverage-Ends c a (fails rate_limit_error) q = refl
  leverage-Ends c a (fails auth_error) q = refl
  leverage-Ends c a (fails order_rejected) q = refl
  leverage-Ends c a (fails network_timeout) q = refl
  leverage-Ends c a (fails unknown_state) q = (refl, refl, refl)
  leverage-Ends c a (fails other_error) q = (refl, refl, refl)

  refusal-Ends : (o : Outcome) → IsRefusal o → Ends env attempts bot v d (d, o)
  refusal-Ends sizing_fetch_failed h = refl
  refusal-Ends sizing_compute_failed h = refl
  refusal-Ends sub_lowest_tier h = refl
  refusal-Ends qty_invalid h = refl
  refusal-Ends instrument_failed h = refl
  refusal-Ends tp_unsatisfiable h = refl
  refusal-Ends crashed h = (refl, refl, refl)
  refusal-Ends leverage_failed h = absurd h
  refusal-Ends place_failed h = absurd h
  refusal-Ends fill_unresolved h = absurd h
  refusal-Ends paper_placed h = absurd h
  refusal-Ends emergency_closed h = absurd h
  refusal-Ends persist_failed h = absurd h
  refusal-Ends placed h = absurd h

  preflight-Ends :
      (s : Stage Checked)
      → preflight env v.request ≡ s
      → Refuses s
      → Ends env attempts bot v d (after_preflight env attempts bot v s d)
  unfolding after_preflight
  preflight-Ends (done o) q h = refusal-Ends o h
  preflight-Ends (further c) q h = leverage-Ends c q env.set_leverage refl

-- Under each outcome of a request, what the handler has done. A refusal by the checks leaves the desk
-- as it was. A live placement that ends as placed has asked the exchange, in this order, for the
-- leverage, for one order of the checked quantity, for the stop and for the target; all but the target
-- were accepted, the target may have been refused, and the trade is recorded and monitored. Where the
-- stop failed and the outcome is an emergency close, the last call asks for a reduce-only order of the
-- whole quantity on the other side, whatever the exchange answers to it, and the tables are as they
-- were or have the trade both opened and closed. An outcome by an exception or a failed transaction
-- leaves the tables and the monitors alone.
pub handle-Leaves :
    (env : PlaceEnv) (attempts bot : ℕ) (v : Envelope) (d : Desk)
    → Leaves env attempts bot v d (handle env attempts bot v d).0 (handle env attempts bot v d).1
unfolding handle
handle-Leaves env attempts bot v d =
    preflight-Ends env attempts bot v d (preflight env v.request) refl
      (preflight-Refuses env v.request)
