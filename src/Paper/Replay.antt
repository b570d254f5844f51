-- ===== src/Paper/Replay.antt =====
-- The order in which the replay of a candle visits its prices.
use scalper_v.Base.{ℕ, ◌≡◌, refl, ap, ◌∙◌, arith, true, none, some, []}
use scalper_v.Decimal.{Decimal, ◌≤?◌, ◌<?◌, min_dec, max_dec}
use scalper_v.Decimal.Order.{≤?_trans, <?-not, <?-false}
use scalper_v.Paper.Price.{compute_fee, compute_realized_pnl, generate_intra_candle_path}
use scalper_v.Paper.Types.{tp, full_mode, Candle, Entry, OpenPart, Fill, Exchange, ok}
use scalper_v.Paper.Fill.{commit_close, drain_sl_tp_fill, dispatch_fill, drain_full_close, fill_fee}
use scalper_v.Paper.Candle.{
  and_then, crossed, tp_qty, fill_of, cross_entry, enqueue, check_sl_tp_crosses, drain_all, sweep,
  segment, walk_path, cache, process_replay_candle,
}
use scalper_v.Paper.Mirror.{put_self}
use scalper_v.Paper.Crossing.{seen, sweep-one, cross_entry-target}

-- With nothing held in the symbol a range does nothing.
segment-flat :
    (symbol now : ℕ) (from upto : Decimal) (x : Exchange)
    → x.active symbol ≡ none
    → x.pending ≡ []
    → segment symbol now from upto x ≡ (none, record x { pending = [] })
unfolding segment sweep check_sl_tp_crosses cross_entry enqueue drain_all
segment-flat symbol now from upto x flat idle = ground arith

drain-target :
    (f : Fill) (x : Exchange) (e : Entry) (p : OpenPart) (pnl : Decimal)
    → f.kind ≡ tp
    → f.tpsl_mode ≡ full_mode
    → x.active f.symbol ≡ some e
    → e.opened ≡ some p
    → compute_realized_pnl p.side p.entry_price f.trigger_price f.qty p.entry_fee (fill_fee x f)
      ≡ some pnl
    → drain_sl_tp_fill f x ≡ ok (commit_close f e p pnl x)
unfolding drain_sl_tp_fill dispatch_fill drain_full_close
drain-target f x e p pnl kind mode there held earned = ground arith

min_dec-le : (a b : Decimal) → (a ≤? b) ≡ true → min_dec a b ≡ a
unfolding min_dec
min_dec-le a b h = ground (arith, <?-not b a)

max_dec-ge : (a b t : Decimal) → (t ≤? b) ≡ true → (t ≤? max_dec a b) ≡ true
unfolding max_dec
max_dec-ge a b t h = ground (arith, <?-false a b, ≤?_trans t b a)

path_of :
    (o high low close : Decimal)
    → (low ≤? o) ≡ true
    → (o ≤? close) ≡ true
    → (close ≤? high) ≡ true
    → generate_intra_candle_path o high low close ≡ some (o, high, low, close)
unfolding generate_intra_candle_path
path_of o high low close h k l = ground (
  arith,
  <?-not high low,
  <?-not o low,
  <?-not high o,
  <?-not close low,
  <?-not high close,
  ≤?_trans low o close,
  ≤?_trans low close high,
  ≤?_trans o close high,
)

crossed-above : (low high s : Decimal) → (s <? low) ≡ true → crossed low high (some s) ≡ none
unfolding crossed
crossed-above low high s h = ground (arith, <?-not s low)

-- The first range of a rising candle, from its open to its high, fills a full take profit.
first_target :
    (symbol now : ℕ) (o high : Decimal) (x : Exchange) (e : Entry) (p : OpenPart)
    (stop price pnl : Decimal)
    → x.pending ≡ []
    → x.active symbol ≡ some e
    → e.opened ≡ some p
    → e.tpsl_mode ≡ full_mode
    → e.sl_price ≡ some stop
    → (stop <? o) ≡ true
    → e.tp_price ≡ some price
    → (o ≤? price) ≡ true
    → (price ≤? high) ≡ true
    → compute_realized_pnl p.side p.entry_price price p.qty p.entry_fee
        (compute_fee p.qty price x.fee_rate)
      ≡ some pnl
    → segment symbol now o high x ≡ (
      none,
      commit_close (fill_of symbol now e p tp p.qty price) e p pnl (record x { pending = [] }),
    )
unfolding segment commit_close tp_qty
first_target symbol now o high x e p stop price pnl idle there held mode guarded under armed above
      below earned =
    let f = fill_of symbol now e p tp p.qty price in
    let bottom = min_dec-le o high (≤?_trans o price high above below) in
    sweep-one symbol now (min_dec o high) (max_dec o high) x f
      (commit_close f e p pnl (record x { pending = [] }))
      (ap (cross_entry symbol now (min_dec o high) (max_dec o high)) there
        ∙ cross_entry-target symbol now (min_dec o high) (max_dec o high) e p price p.qty held
            (ap (crossed (min_dec o high) (max_dec o high)) guarded
              ∙ crossed-above (min_dec o high) (max_dec o high) stop
                  (ap (λ b. stop <? b) bottom ∙ under))
            armed (ground arith) (ap (λ b. b ≤? price) bottom ∙ above)
            (max_dec-ge o high price below))
      idle (drain-target f (record x { pending = [] }) e p pnl refl mode there held earned)

-- A walk whose first range ends flat does no more.
walk-flat :
    (symbol now : ℕ) (o p1 p2 close : Decimal) (x y : Exchange)
    → segment symbol now o p1 x ≡ (none, y)
    → y.active symbol ≡ none
    → y.pending ≡ []
    → walk_path symbol now (some (o, p1, p2, close)) x ≡ (none, record y { pending = [] })
unfolding walk_path
walk-flat symbol now o p1 p2 close x y first flat idle =
    ap (λ s. and_then (and_then s (segment symbol now p1 p2)) (segment symbol now p2 close)) first
    ∙ ap (λ s. and_then s (segment symbol now p2 close)) (segment-flat symbol now p1 p2 y flat idle)
    ∙ segment-flat symbol now p2 close (record y { pending = [] }) flat refl

-- The candle as the replay stores it.
abbrev pub replayed_in : Candle → Exchange → Exchange
replayed_in c x = seen (record c { is_closed = true }) x

-- In the replay of a candle that rises from open to close within its range, a full take profit between the open and the
-- high closes the whole position at the take profit, also if the low reaches a stop loss that lies
-- below the open, and nothing else happens; provided no fill was queued and the profit can be
-- quantized.
pub process_replay_candle-target_first :
    (c : Candle) (x : Exchange) (e : Entry) (p : OpenPart) (stop price pnl : Decimal)
    → (c.low ≤? c.open_price) ≡ true
    → (c.open_price ≤? c.close) ≡ true
    → (c.close ≤? c.high) ≡ true
    → x.pending ≡ []
    → x.active c.symbol ≡ some e
    → e.opened ≡ some p
    → e.tpsl_mode ≡ full_mode
    → e.sl_price ≡ some stop
    → (stop <? c.open_price) ≡ true
    → e.tp_price ≡ some price
    → (c.open_price ≤? price) ≡ true
    → (price ≤? c.high) ≡ true
    → compute_realized_pnl p.side p.entry_price price p.qty p.entry_fee
        (compute_fee p.qty price x.fee_rate)
      ≡ some pnl
    → process_replay_candle c x ≡ (
      none,
      commit_close (fill_of c.symbol c.bucket_start e p tp p.qty price) e p pnl (replayed_in c x),
    )
unfolding process_replay_candle cache commit_close
process_replay_candle-target_first c x e p stop price pnl bottom rises top idle there held mode
      guarded under armed above below earned =
    let x0 = cache (record c { is_closed = true }) x in
    let y =
      commit_close (fill_of c.symbol c.bucket_start e p tp p.qty price) e p pnl (replayed_in c x) in
    ap (λ path. walk_path c.symbol c.bucket_start path x0)
      (path_of c.open_price c.high c.low c.close bottom rises top)
    ∙ walk-flat c.symbol c.bucket_start c.open_price c.high c.low c.close x0 y
        (first_target c.symbol c.bucket_start c.open_price c.high x0 e p stop price pnl idle there
          held mode guarded under armed above below earned)
        (put_self c.symbol none x.active) refl
