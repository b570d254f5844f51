-- ===== src/Paper/Crossing.antt =====
-- What a closed candle does to the position that it crosses: the stop loss comes first, and a partial
-- take profit stays armed.
use scalper_v.Base.{ℕ, ◌≡◌, refl, ap, ◌∙◌, arith, true, none, some, []}
use scalper_v.Decimal.{Decimal, int, ◌≤?◌, ◌-ᵈ◌}
use scalper_v.Base.Int.{pos}
use scalper_v.Paper.Price.{compute_fee, compute_realized_pnl}
use scalper_v.Paper.Types.{trail, sl, tp, partial_mode, Candle, Entry, OpenPart, Fill, Exchange, ok}
use scalper_v.Paper.Fill.{
  commit_close, commit_partial, reduced, drain_full_close, dispatch_fill, drain_partial_tp,
  drain_sl_tp_fill, fill_fee,
}
use scalper_v.Paper.Mirror.{put_self}
use scalper_v.Paper.Candle.{
  tp_qty, crossed, tp_fill, fill_of, cross_of, cross_entry, enqueue, check_sl_tp_crosses, drain_all,
  sweep, cache, on_candle,
}

-- The exchange that a candle finds, with the candle stored.
abbrev pub seen : Candle → Exchange → Exchange
seen c x = record (cache c x) { pending = [] }

-- A range that queues one fill drains that fill.
pub sweep-one :
    (symbol now : ℕ) (low high : Decimal) (x : Exchange) (f : Fill) (y : Exchange)
    → cross_entry symbol now low high (x.active symbol) ≡ ok (some f)
    → x.pending ≡ []
    → drain_sl_tp_fill f (record x { pending = [] }) ≡ ok y
    → sweep symbol now low high x ≡ (none, record y { pending = [] })
unfolding sweep check_sl_tp_crosses enqueue drain_all
sweep-one symbol now low high x f y crosses idle drained = ground arith

on_candle-sweep :
    (c : Candle) (now : ℕ) (x : Exchange)
    → c.is_closed ≡ true
    → on_candle c now x ≡ sweep c.symbol now c.low c.high (cache c x)
unfolding on_candle
on_candle-sweep c now x closed = ground arith

cross_entry-stop :
    (symbol now : ℕ) (low high : Decimal) (e : Entry) (p : OpenPart) (price : Decimal)
    → e.opened ≡ some p
    → e.sl_price ≡ some price
    → (low ≤? price) ≡ true
    → (price ≤? high) ≡ true
    → cross_entry symbol now low high (some e) ≡ ok (some (fill_of symbol now e p sl p.qty price))
unfolding cross_entry cross_of crossed
cross_entry-stop symbol now low high e p price held armed above below = ground arith

drain-stop :
    (f : Fill) (x : Exchange) (e : Entry) (p : OpenPart) (pnl : Decimal)
    → f.kind ≡ sl
    → x.active f.symbol ≡ some e
    → e.opened ≡ some p
    → compute_realized_pnl p.side p.entry_price f.trigger_price f.qty p.entry_fee (fill_fee x f)
      ≡ some pnl
    → drain_sl_tp_fill f x ≡ ok (commit_close f e p pnl x)
unfolding drain_sl_tp_fill dispatch_fill drain_full_close
drain-stop f x e p pnl kind there held earned = ground arith

-- If the range of a closed candle contains the stop loss of the open position, the candle closes the
-- whole position at the stop loss and does nothing else, wherever the take profit lies; provided no
-- fill was queued and the profit can be quantized.
pub on_candle-stop_first :
    (c : Candle) (now : ℕ) (x : Exchange) (e : Entry) (p : OpenPart) (price pnl : Decimal)
    → c.is_closed ≡ true
    → x.pending ≡ []
    → x.active c.symbol ≡ some e
    → e.opened ≡ some p
    → e.sl_price ≡ some price
    → (c.low ≤? price) ≡ true
    → (price ≤? c.high) ≡ true
    → compute_realized_pnl p.side p.entry_price price p.qty p.entry_fee
        (compute_fee p.qty price x.fee_rate)
      ≡ some pnl
    → on_candle c now x
      ≡ (none, commit_close (fill_of c.symbol now e p sl p.qty price) e p pnl (seen c x))
unfolding cache commit_close
on_candle-stop_first c now x e p price pnl closed idle there held armed above below earned =
    let f = fill_of c.symbol now e p sl p.qty price in
    on_candle-sweep c now x closed
    ∙ sweep-one c.symbol now c.low c.high (cache c x) f (commit_close f e p pnl (seen c x))
        (ap (cross_entry c.symbol now c.low c.high) there
          ∙ cross_entry-stop c.symbol now c.low c.high e p price held armed above below)
        idle (drain-stop f (seen c x) e p pnl refl there held earned)

pub cross_entry-target :
    (symbol now : ℕ) (low high : Decimal) (e : Entry) (p : OpenPart) (price qty : Decimal)
    → e.opened ≡ some p
    → crossed low high e.sl_price ≡ none
    → e.tp_price ≡ some price
    → tp_qty e.tpsl_mode e.tp_size p.qty ≡ some qty
    → (low ≤? price) ≡ true
    → (price ≤? high) ≡ true
    → cross_entry symbol now low high (some e) ≡ ok (some (fill_of symbol now e p tp qty price))
unfolding cross_entry cross_of crossed tp_fill
cross_entry-target symbol now low high e p price qty held unstopped armed size above below =
    ground arith

drain-partial :
    (f : Fill) (x : Exchange) (e : Entry) (p : OpenPart) (pnl : Decimal)
    → f.kind ≡ tp
    → f.tpsl_mode ≡ partial_mode
    → x.active f.symbol ≡ some e
    → e.opened ≡ some p
    → compute_realized_pnl p.side p.entry_price f.trigger_price f.qty (int (pos 0)) (fill_fee x f)
      ≡ some pnl
    → drain_sl_tp_fill f x ≡ ok (commit_partial f e p pnl x)
unfolding drain_sl_tp_fill dispatch_fill drain_partial_tp
drain-partial f x e p pnl kind mode there held earned = ground arith

-- A closed candle that reaches a partial take profit, and not the stop loss, takes the size of the
-- take profit off the open quantity and leaves the take profit armed with the same price, size and
-- mode: also where the flag says that it was hit before, and whatever quantity is left; provided no
-- fill was queued and the profit can be quantized.
pub on_candle-partial_again :
    (c : Candle) (now : ℕ) (x : Exchange) (e : Entry) (p : OpenPart) (price size pnl : Decimal)
    → c.is_closed ≡ true
    → x.pending ≡ []
    → x.active c.symbol ≡ some e
    → e.opened ≡ some p
    → crossed c.low c.high e.sl_price ≡ none
    → e.tp_price ≡ some price
    → e.tpsl_mode ≡ partial_mode
    → e.tp_size ≡ some size
    → (c.low ≤? price) ≡ true
    → (price ≤? c.high) ≡ true
    → compute_realized_pnl p.side p.entry_price price size
        (int (pos 0))
        (compute_fee size price x.fee_rate)
      ≡ some pnl
    → (e' : Entry) × (p' : OpenPart) × ((on_candle c now x).1.active c.symbol ≡ some e')
      × (e'.opened ≡ some p')
      × (e'.tp_price ≡ some price)
      × (e'.tp_size ≡ some size)
      × (e'.tpsl_mode ≡ partial_mode)
      × (p'.qty ≡ p.qty -ᵈ size)
      × (p'.tp_hit ≡ true)
unfolding cache commit_partial reduced tp_qty
on_candle-partial_again c now x e p price size pnl closed idle there held unstopped armed mode sized
      above below earned =
    let f = fill_of c.symbol now e p tp size price in
    let swept =
      on_candle-sweep c now x closed
      ∙ sweep-one c.symbol now c.low c.high (cache c x) f (commit_partial f e p pnl (seen c x))
          (ap (cross_entry c.symbol now c.low c.high) there
            ∙ cross_entry-target c.symbol now c.low c.high e p price size held unstopped armed
                (ground arith) above below)
          idle (drain-partial f (seen c x) e p pnl refl mode there held earned) in
    let p' = reduced f p (fill_fee x f) pnl in
    (
      record e { opened = some p'; sl_type = some trail },
      p',
      ap (λ s. s.1.active c.symbol) swept ∙ put_self c.symbol _ x.active,
      refl,
      armed,
      sized,
      mode,
      refl,
      refl,
    )
