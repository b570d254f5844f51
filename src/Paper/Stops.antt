-- ===== src/Paper/Stops.antt =====
-- Stops and reads of the paper exchange: `set_trading_stop`, `cancel_order` and
-- `get_account_balance` of packages/exchange/paper/adapter.py.
use scalper_v.Base.{ℕ, Option, none, some}
use scalper_v.Decimal.{Decimal, ◌+ᵈ◌}
use scalper_v.Paper.Types.{
  TpslMode, full_mode, SlType, protective, be, trail, Entry, Exchange, trail_not_settable, Result,
  ok, err, put,
}
use scalper_v.Paper.Tables.{
  update_paper_position_sl_tp, update_paper_order_cancelled, sum_paper_trades_realized_pnl,
}

-- The arguments of `set_trading_stop` beside the symbol.
pub record StopRequest : Type 0 where
  pub tpsl_mode : TpslMode
  pub sl_price : Option Decimal
  pub tp_price : Option Decimal
  pub tp_size : Option Decimal
  pub sl_type : Option SlType

-- `existing.setdefault("sl_type", "protective")`, unless a type is asked for.
sl_type_of : Option SlType → Option SlType → SlType
sl_type_of (some asked) old = asked
sl_type_of none (some old) = old
sl_type_of none none = protective

unfoldable pub entry_or_new : Option Entry → Entry
entry_or_new (some e) = e
entry_or_new none = record {
  opened = none;
  sl_price = none;
  tp_price = none;
  tp_size = none;
  tpsl_mode = full_mode;
  sl_type = none;
}

unfoldable pub with_stops : StopRequest → Entry → Entry
unfolding sl_type_of
with_stops r e = record e {
  sl_price = r.sl_price;
  tp_price = r.tp_price;
  tp_size = r.tp_size;
  tpsl_mode = r.tpsl_mode;
  sl_type = some (sl_type_of r.sl_type e.sl_type);
}

unfoldable pub commit_stops : ℕ → StopRequest → ℕ → Exchange → Exchange
unfolding with_stops entry_or_new update_paper_position_sl_tp
commit_stops symbol r now x = record x {
  active = put symbol (some (with_stops r (entry_or_new (x.active symbol)))) x.active;
  tables = update_paper_position_sl_tp symbol r.sl_price r.tp_price now x.tables;
}

-- `set_trading_stop`: only a partial take profit may start the trail.
unfoldable pub set_trading_stop : ℕ → StopRequest → ℕ → Exchange → Result Exchange
unfolding commit_stops
set_trading_stop symbol r now x = elim r.sl_type [
  | none ↦ ok (commit_stops symbol r now x)
  | some t ↦ elim t [
    | trail ↦ err trail_not_settable
    | protective ↦ ok (commit_stops symbol r now x)
    | be ↦ ok (commit_stops symbol r now x)
  ]
]

unfoldable pub cancel_order : ℕ → Exchange → Exchange
unfolding update_paper_order_cancelled
cancel_order id x = record x { tables = update_paper_order_cancelled id x.tables }

-- The wallet balance of `get_account_balance`; the other totals repeat it.
unfoldable pub wallet_balance : Exchange → Decimal
unfolding sum_paper_trades_realized_pnl ◌+ᵈ◌
wallet_balance x = x.seed_balance +ᵈ sum_paper_trades_realized_pnl x.tables.trades
