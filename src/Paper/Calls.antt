-- ===== src/Paper/Calls.antt =====
-- The paper exchange between the calls of its bot and the candles of its stream.
use scalper_v.Base.{ℕ, Bool, Option, List, [], ◌∷◌}
use scalper_v.Domain.{Side}
use scalper_v.Decimal.{Decimal}
use scalper_v.Paper.Types.{Candle, Exchange, Result, ok, err}
use scalper_v.Paper.Orders.{place_market_order}
use scalper_v.Paper.Stops.{StopRequest, set_trading_stop, cancel_order}
use scalper_v.Paper.Candle.{on_candle, process_replay_candle}

pub data Call : Type 0 where
  order : (symbol : ℕ) (side : Side) (qty : Decimal) (reduce_only : Bool) (now : ℕ) → Call
  stop : (symbol : ℕ) (r : StopRequest) (now : ℕ) → Call
  cancel : (id : ℕ) → Call
  candle : (c : Candle) (now : ℕ) → Call
  replayed : (c : Candle) → Call

-- What is left of a call that raised is what it had committed.
unfoldable pub placed_in : Exchange → Result (Option ℕ × Exchange) → Exchange
placed_in x (ok (trade, y)) = y
placed_in x (err e) = x

unfoldable pub set_in : Exchange → Result Exchange → Exchange
set_in x (ok y) = y
set_in x (err e) = x

unfoldable pub after : Call → Exchange → Exchange
unfolding placed_in set_in place_market_order set_trading_stop cancel_order on_candle
    process_replay_candle
after (order symbol side qty reduce_only now) x =
    placed_in x (place_market_order symbol side qty reduce_only now x)
after (stop symbol r now) x = set_in x (set_trading_stop symbol r now x)
after (cancel id) x = cancel_order id x
after (candle c now) x = (on_candle c now x).1
after (replayed c) x = (process_replay_candle c x).1

unfoldable pub after_all : List Call → Exchange → Exchange
unfolding after
after_all [] x = x
after_all (c ∷ cs) x = after_all cs (after c x)
