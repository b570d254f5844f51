-- ===== src/Paper/Restart.antt =====
-- How the paper exchange starts: `_hydrate_active_positions`, `_apply_seed_open_state` and
-- `start_consuming` of packages/exchange/paper/adapter.py, with the join of
-- `select_paper_positions_for_hydrate` in packages/exchange/paper/persistence.py.
use scalper_v.Base.{
  ℕ, Bool, true, false, Option, none, some, List, [], ◌∷◌, ◌==◌, ◌&&◌, if◌then◌else◌,
}
use scalper_v.Base.Int.{pos}
use scalper_v.Domain.{Side}
use scalper_v.Decimal.{Decimal, int}
use scalper_v.Paper.Types.{
  TpslMode, full_mode, SlType, protective, Candle, Entry, TradeRow, ExecType, open_exec, close_exec,
  fill_exec, ExecutionRow, PositionRow, Tables, Exchange, put,
}

-- `JOIN paper_trades pt ON pt.id = pp.trade_id`
unfoldable pub trade_of : ℕ → List TradeRow → Option TradeRow
trade_of id [] = none
trade_of id (r ∷ rs) = if r.id == id then some r else trade_of id rs

is_open_exec : ExecType → Bool
is_open_exec open_exec = true
is_open_exec close_exec = false
is_open_exec (fill_exec kind) = false

-- `JOIN paper_executions pe ON pe.order_id = pt.open_order_id AND pe.exec_type = 'open'`
unfoldable pub entry_fee_of : ℕ → List ExecutionRow → Option Decimal
unfolding is_open_exec
entry_fee_of order [] = none
entry_fee_of order (r ∷ rs) =
    if r.order_id == order && is_open_exec r.exec_type then some r.fee else entry_fee_of order rs

-- The entry made of a joined row: the mode, the size and the partial result are not in the query.
unfoldable pub hydrated : PositionRow → TradeRow → Decimal → Entry
hydrated r t fee = record {
  opened = some (record {
    trade_id = r.trade_id;
    side = r.side;
    qty = r.remaining_qty;
    entry_price = r.entry_price;
    entry_fee = fee;
    fees_paid = t.fees_paid;
    realized_pnl = none;
    tp_hit = r.tp_hit;
  });
  sl_price = r.sl_price;
  tp_price = r.tp_price;
  tp_size = none;
  tpsl_mode = full_mode;
  sl_type = none;
}

with_fee : PositionRow → TradeRow → Option Decimal → Option Entry
unfolding hydrated
with_fee r t none = none
with_fee r t (some fee) = some (hydrated r t fee)

with_trade : PositionRow → List ExecutionRow → Option TradeRow → Option Entry
unfolding with_fee entry_fee_of
with_trade r executions none = none
with_trade r executions (some t) = with_fee r t (entry_fee_of t.open_order_id executions)

-- The joined row of a position, if both joins find one.
unfoldable pub joined : PositionRow → Tables → Option Entry
unfolding with_trade trade_of
joined r t = with_trade r t.executions (trade_of r.trade_id t.trades)

unfoldable pub set_if : ℕ → Option Entry → (ℕ → Option Entry) → ℕ → Option Entry
set_if symbol none d = d
set_if symbol (some e) d = put symbol (some e) d

-- The loop over the joined rows, of which a symbol has one at most.
unfoldable pub hydrate_rows : List PositionRow → Tables → (ℕ → Option Entry) → ℕ → Option Entry
unfolding set_if joined
hydrate_rows [] t d = d
hydrate_rows (r ∷ rs) t d = set_if r.symbol (joined r t) (hydrate_rows rs t d)

-- `_hydrate_active_positions`
unfoldable pub hydrate_active_positions : Exchange → Exchange
unfolding hydrate_rows
hydrate_active_positions x = record x { active = hydrate_rows x.tables.positions x.tables x.active }

-- A new process over the same tables: memory is empty and nothing is queued.
unfoldable pub restarted : Exchange → Exchange
restarted x = record x {
  last_price = λ s. none;
  last_candle = λ s. none;
  active = λ s. none;
  pending = [];
}

-- `seed_open_state`, with its defaults filled in.
pub record Seed : Type 0 where
  pub symbol : ℕ
  pub trade_id : ℕ
  pub side : Side
  pub qty : Decimal
  pub entry_price : Decimal
  pub entry_fee : Option Decimal
  pub fees_paid : Option Decimal
  pub sl_price : Option Decimal
  pub tp_price : Option Decimal
  pub tp_size : Option Decimal
  pub tpsl_mode : Option TpslMode
  pub tp_hit : Bool
  pub sl_type : Option SlType
  pub opened_at : ℕ

abbrev or_default {ℓ} : {A : Type ℓ} → Option A → A → A
or_default none d = d
or_default (some a) d = a

unfoldable pub seeded_entry : Seed → Entry
seeded_entry s = record {
  opened = some (record {
    trade_id = s.trade_id;
    side = s.side;
    qty = s.qty;
    entry_price = s.entry_price;
    entry_fee = or_default s.entry_fee (int (pos 0));
    fees_paid = or_default s.fees_paid (int (pos 0));
    realized_pnl = none;
    tp_hit = s.tp_hit;
  });
  sl_price = s.sl_price;
  tp_price = s.tp_price;
  tp_size = some (or_default s.tp_size s.qty);
  tpsl_mode = or_default s.tpsl_mode full_mode;
  sl_type = some (or_default s.sl_type protective);
}

-- `_apply_seed_open_state`: the candle is degenerate at the entry price.
unfoldable pub apply_seed_open_state : Seed → Exchange → Exchange
unfolding seeded_entry
apply_seed_open_state s x =
    let flat : Candle = record {
      symbol = s.symbol;
      bucket_start = s.opened_at;
      open_price = s.entry_price;
      high = s.entry_price;
      low = s.entry_price;
      close = s.entry_price;
      is_closed = true;
    } in
    record x {
      active = put s.symbol (some (seeded_entry s)) x.active;
      last_price = put s.symbol (some s.entry_price) x.last_price;
      last_candle = put s.symbol (some flat) x.last_candle;
    }

-- `start_consuming` of the live mode, up to the subscription.
unfoldable pub start_consuming : Option Seed → Exchange → Exchange
unfolding hydrate_active_positions apply_seed_open_state
start_consuming none x = hydrate_active_positions x
start_consuming (some s) x = apply_seed_open_state s (hydrate_active_positions x)
