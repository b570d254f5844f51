-- ===== src/Paper/Candle.antt =====
-- Candles of the paper exchange, live and replayed: `_on_candle`, `_check_sl_tp_crosses`,
-- `_process_replay_candle` and `run_replay` of packages/exchange/paper/adapter.py.
use scalper_v.Base.{ℕ, true, false, ◌&&◌, Option, none, some, List, [], ◌∷◌, ◌++◌, if◌then◌else◌}
use scalper_v.Decimal.{Decimal, ◌≤?◌, min_dec, max_dec}
use scalper_v.Paper.Price.{generate_intra_candle_path}
use scalper_v.Paper.Types.{
  FillKind, sl, tp, TpslMode, full_mode, partial_mode, Candle, OpenPart, Entry, Fill, Exchange,
  Error, partial_tp_without_size, malformed_candle, Result, ok, err, put,
}
use scalper_v.Paper.Fill.{drain_sl_tp_fill}

-- How a handler ends: the error that it raises, if any, and the state that it leaves.
abbrev pub Stepped : Type 0
Stepped = Option Error × Exchange

-- The price, if it is set and lies in the range of the candle.
unfoldable pub crossed : Decimal → Decimal → Option Decimal → Option Decimal
unfolding ◌≤?◌
crossed low high none = none
crossed low high (some price) = if (low ≤? price) && (price ≤? high) then some price else none

abbrev pub fill_of : ℕ → ℕ → Entry → OpenPart → FillKind → Decimal → Decimal → Fill
fill_of symbol now e p kind qty price = record {
  symbol = symbol;
  side = p.side;
  qty = qty;
  trigger_price = price;
  triggered_at = now;
  kind = kind;
  tpsl_mode = e.tpsl_mode;
}

-- The size of a take profit; a partial one wants a size.
unfoldable pub tp_qty : TpslMode → Option Decimal → Decimal → Option Decimal
tp_qty full_mode size qty = some qty
tp_qty partial_mode size qty = size

unfoldable pub tp_fill : ℕ → ℕ → Entry → OpenPart → Option Decimal → Result (Option Fill)
unfolding tp_qty
tp_fill symbol now e p none = ok none
tp_fill symbol now e p (some price) = elim (tp_qty e.tpsl_mode e.tp_size p.qty) [
  | none ↦ err partial_tp_without_size
  | some qty ↦ ok (some (fill_of symbol now e p tp qty price))
]

-- The stop loss comes first; the take profit is then dropped for this range.
unfoldable pub cross_of : ℕ → ℕ → Decimal → Decimal → Entry → OpenPart → Result (Option Fill)
unfolding crossed tp_fill
cross_of symbol now low high e p = elim (crossed low high e.sl_price) [
  | some price ↦ ok (some (fill_of symbol now e p sl p.qty price))
  | none ↦ tp_fill symbol now e p (crossed low high e.tp_price)
]

unfoldable pub cross_entry : ℕ → ℕ → Decimal → Decimal → Option Entry → Result (Option Fill)
unfolding cross_of
cross_entry symbol now low high none = ok none
cross_entry symbol now low high (some e) = elim e.opened [
  | none ↦ ok none
  | some p ↦ cross_of symbol now low high e p
]

unfoldable pub enqueue : Option Fill → Exchange → Exchange
enqueue none x = x
enqueue (some f) x = record x { pending = x.pending ++ (f ∷ []) }

-- `_check_sl_tp_crosses`, and `_check_sl_tp_crosses_replay`, whose body is the same.
unfoldable pub check_sl_tp_crosses : ℕ → ℕ → Decimal → Decimal → Exchange → Stepped
unfolding cross_entry enqueue
check_sl_tp_crosses symbol now low high x =
    elim (cross_entry symbol now low high (x.active symbol)) [
      | err e ↦ (some e, x)
      | ok f ↦ (none, enqueue f x)
    ]

-- `while self._pending_sl_tp_fills: ...`, over the fills that are queued.
unfoldable pub drain_all : List Fill → Exchange → Stepped
unfolding drain_sl_tp_fill
drain_all [] x = (none, record x { pending = [] })
drain_all (f ∷ fs) x =
    let popped : Exchange = record x { pending = fs } in
    elim (drain_sl_tp_fill f popped) [ err e ↦ (some e, popped) | ok x' ↦ drain_all fs x' ]

abbrev pub and_then : Stepped → (Exchange → Stepped) → Stepped
and_then (none, x) k = k x
and_then (some e, x) k = (some e, x)

-- One range of prices: look for a cross, then drain the queue.
unfoldable pub sweep : ℕ → ℕ → Decimal → Decimal → Exchange → Stepped
unfolding check_sl_tp_crosses drain_all
sweep symbol now low high x =
    and_then (check_sl_tp_crosses symbol now low high x) (λ y. drain_all y.pending y)

unfoldable pub cache : Candle → Exchange → Exchange
cache c x = record x {
  last_candle = put c.symbol (some c) x.last_candle;
  last_price = put c.symbol (some c.close) x.last_price;
}

-- `_on_candle`, after the payload is validated.
unfoldable pub on_candle : Candle → ℕ → Exchange → Stepped
unfolding cache sweep
on_candle c now x = elim c.is_closed [
  | false ↦ (none, x)
  | true ↦ sweep c.symbol now c.low c.high (cache c x)
]

unfoldable pub segment : ℕ → ℕ → Decimal → Decimal → Exchange → Stepped
unfolding sweep min_dec max_dec
segment symbol now from upto x = sweep symbol now (min_dec from upto) (max_dec from upto) x

unfoldable pub walk_path :
    ℕ → ℕ → Option (Decimal × Decimal × Decimal × Decimal) → Exchange → Stepped
unfolding segment
walk_path symbol now none x = (some malformed_candle, x)
walk_path symbol now (some (o, p1, p2, c)) x =
    and_then (and_then (segment symbol now o p1 x) (segment symbol now p1 p2))
      (segment symbol now p2 c)

-- `_process_replay_candle`: the replay clock stands at the candle's bucket.
unfoldable pub process_replay_candle : Candle → Exchange → Stepped
unfolding cache walk_path generate_intra_candle_path
process_replay_candle c x =
    walk_path c.symbol c.bucket_start (generate_intra_candle_path c.open_price c.high c.low c.close)
      (cache (record c { is_closed = true }) x)

-- `run_replay`, over the rows of the source.
unfoldable pub run_replay : List Candle → Exchange → Stepped
unfolding process_replay_candle
run_replay [] x = (none, x)
run_replay (c ∷ cs) x = and_then (process_replay_candle c x) (run_replay cs)
