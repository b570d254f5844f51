-- ===== src/Execution/Attribution.antt =====
-- services/execution/app/dispatcher.py: a fill that the exchange reports is attributed to a trade and
-- an order, or refused.
use scalper_v.Base.{ℕ, Bool, true, false, Option, none, some, if◌then◌else◌}
use scalper_v.Domain.{Side, buy, sell}
use scalper_v.Decimal.{Decimal, ◌<?◌, ◌=?◌}
use scalper_v.Lifecycle.{SlType, protective, be, trail}
use scalper_v.Execution.{
  TradeRow, PositionStateRow, ExecType, open_fill, partial_tp_fill, sl_fill, trail_fill, close_fill,
  unknown_fill, Tables,
}
use scalper_v.Execution.Statements.{
  select_trade_by_open_order_id, select_trade_by_close_order_id, select_position_state,
  select_open_order_id_by_trade_id,
}

pub record ExecutionEvent : Type 0 where
  pub exchange_exec_id : ℕ
  pub exchange_order_id : ℕ
  pub symbol : ℕ
  pub side : Side
  pub price : Decimal
  pub qty : Decimal
  pub fee : Decimal
  pub executed_at : ℕ

-- Why the booking of a fill raises.
pub data Halt : Type 0 where
  overfill orphan_order orphan_synthetic_fill unattributable_fill trade_id_mismatch : Halt
  orphan_trade order_meta_missing snapshot_failed not_committed : Halt

pub data Tx {ℓ} (A : Type ℓ) : Type ℓ where
  ok : A → Tx A
  halted : Halt → Tx A

infixl 5 ◌>>=◌
abbrev pub ◌>>=◌ {ℓ κ} : {A : Type ℓ} {B : Type κ} → Tx A → (A → Tx B) → Tx B
ok a >>= f = f a
halted h >>= f = halted h

abbrev pub same_side : Side → Side → Bool
same_side buy buy = true
same_side buy sell = false
same_side sell buy = false
same_side sell sell = true

-- The kind of a fill and the trade that it belongs to.
abbrev pub Attribution : Type 0
Attribution = ExecType × Option ℕ

abbrev full_close : Option SlType → ExecType
full_close none = unknown_fill
full_close (some trail) = trail_fill
full_close (some protective) = sl_fill
full_close (some be) = sl_fill

-- A fill of an order that the service did not place, by the position that is open.
unfoldable pub by_position : ExecutionEvent → Option PositionStateRow → Attribution
unfolding ◌<?◌ ◌=?◌
by_position e none = (unknown_fill, none)
by_position e (some ps) =
    if same_side e.side ps.side
    then (unknown_fill, some ps.trade_id)
    else if e.qty <? ps.remaining_qty
    then (partial_tp_fill, some ps.trade_id)
    else if e.qty =? ps.remaining_qty
    then (full_close ps.sl_type, some ps.trade_id)
    else (unknown_fill, some ps.trade_id)

by_close_order : Option TradeRow → Attribution
by_close_order none = (unknown_fill, none)
by_close_order (some r) = (close_fill, some r.id)

by_order : ℕ → Tables → Option TradeRow → Attribution
unfolding by_close_order select_trade_by_close_order_id
by_order order t none = by_close_order (select_trade_by_close_order_id order t)
by_order order t (some r) = (open_fill, some r.id)

unfoldable pub derive_exec_type : ℕ → ExecutionEvent → Option ℕ → Tables → Attribution
unfolding by_position by_order select_trade_by_open_order_id select_position_state
derive_exec_type bot e none t = by_position e (select_position_state bot e.symbol t)
derive_exec_type bot e (some order) t = by_order order t (select_trade_by_open_order_id order t)

unfoldable pub refuse_overfill : ExecutionEvent → Option PositionStateRow → Tx (Unit {0})
unfolding ◌<?◌
refuse_overfill e none = ok tt
refuse_overfill e (some ps) = if ps.remaining_qty <? e.qty then halted overfill else ok tt

unfoldable pub check_overfill : ℕ → ExecutionEvent → Attribution → Tables → Tx (Unit {0})
unfolding refuse_overfill select_position_state
check_overfill bot e (unknown_fill, some trade) t =
    refuse_overfill e (select_position_state bot e.symbol t)
check_overfill bot e (unknown_fill, none) t = ok tt
check_overfill bot e (open_fill, trade) t = ok tt
check_overfill bot e (partial_tp_fill, trade) t = ok tt
check_overfill bot e (sl_fill, trade) t = ok tt
check_overfill bot e (trail_fill, trade) t = ok tt
check_overfill bot e (close_fill, trade) t = ok tt

found_order : Option ℕ → Tx ℕ
found_order none = halted orphan_synthetic_fill
found_order (some order) = ok order

-- The order to which the execution's row refers.
unfoldable pub order_for_insert : Option ℕ → Option ℕ → Tables → Tx ℕ
unfolding found_order select_open_order_id_by_trade_id
order_for_insert (some order) none t = halted orphan_order
order_for_insert (some order) (some trade) t = ok order
order_for_insert none (some trade) t = found_order (select_open_order_id_by_trade_id trade t)
order_for_insert none none t = halted unattributable_fill
