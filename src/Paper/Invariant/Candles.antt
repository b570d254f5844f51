-- ===== src/Paper/Invariant/Candles.antt =====
-- Fills and candles keep every invariant that the commits keep.
use scalper_v.Base.{ℕ, ◌≡◌, true, false, Option, none, some, List, [], ◌∷◌, Option-cases, inl, inr}
use scalper_v.Base.Int.{pos}
use scalper_v.Decimal.{Decimal, int}
use scalper_v.Paper.Price.{compute_realized_pnl}
use scalper_v.Paper.Types.{
  FillKind, sl, tp, TpslMode, full_mode, partial_mode, Candle, Entry, OpenPart, Exchange, Fill, ok,
  err, Error,
}
use scalper_v.Paper.Fill.{
  fill_fee, commit_partial, commit_close, drain_partial_tp, drain_full_close, dispatch_fill,
  drain_sl_tp_fill,
}
use scalper_v.Paper.Candle.{
  Stepped, cross_entry, enqueue, check_sl_tp_crosses, segment, walk_path, cache, drain_all,
  and_then, sweep, on_candle, process_replay_candle,
}
use scalper_v.Paper.Price.{generate_intra_candle_path}
use scalper_v.Base.{◌++◌}
use scalper_v.Decimal.{min_dec, max_dec}
use scalper_v.Paper.Invariant.{Preserves, Keeps, Stays}

module _ (Inv : Exchange → Type 0) (laws : Preserves Inv) where
  drain_partial-Keeps :
      (f : Fill) (e : Entry) (p : OpenPart) (x : Exchange)
      → x.active f.symbol ≡ some e
      → e.opened ≡ some p
      → Keeps Inv x (drain_partial_tp f e p x)
  unfolding drain_partial_tp
  drain_partial-Keeps f e p x there held =
      elim (compute_realized_pnl p.side p.entry_price f.trigger_price f.qty (int (pos 0))
          (fill_fee x f))
        as (λ o. Keeps Inv x (elim o [
          | none ↦ err Error.invalid_operation
          | some pnl ↦ ok (commit_partial f e p pnl x)
        ])) [ none ↦ tt | some pnl ↦ λ m. laws.partial f e p pnl x there held m ]

  drain_full-Keeps :
      (f : Fill) (e : Entry) (p : OpenPart) (x : Exchange)
      → x.active f.symbol ≡ some e
      → e.opened ≡ some p
      → Keeps Inv x (drain_full_close f e p x)
  unfolding drain_full_close
  drain_full-Keeps f e p x there held =
      elim (compute_realized_pnl p.side p.entry_price f.trigger_price f.qty p.entry_fee
          (fill_fee x f))
        as (λ o. Keeps Inv x (elim o [
          | none ↦ err Error.invalid_operation
          | some pnl ↦ ok (commit_close f e p pnl x)
        ])) [ none ↦ tt | some pnl ↦ λ m. laws.closed f e p pnl x there held m ]

  dispatch-Keeps :
      (kind : FillKind) (mode : TpslMode) (f : Fill) (e : Entry) (p : OpenPart) (x : Exchange)
      → x.active f.symbol ≡ some e
      → e.opened ≡ some p
      → Keeps Inv x (dispatch_fill kind mode f e p x)
  unfolding dispatch_fill
  dispatch-Keeps tp partial_mode f e p x there held = drain_partial-Keeps f e p x there held
  dispatch-Keeps tp full_mode f e p x there held = drain_full-Keeps f e p x there held
  dispatch-Keeps sl partial_mode f e p x there held = drain_full-Keeps f e p x there held
  dispatch-Keeps sl full_mode f e p x there held = drain_full-Keeps f e p x there held

  drain-Keeps : (f : Fill) (x : Exchange) → Keeps Inv x (drain_sl_tp_fill f x)
  unfolding drain_sl_tp_fill
  drain-Keeps f x = elim (Option-cases (x.active f.symbol)) [
    | inl gone ↦ rw gone tt
    | inr (e, there) ↦ elim (Option-cases e.opened) [
      | inl gone ↦ rw (there, gone) tt
      | inr (p, held) ↦ rw (there, held) (dispatch-Keeps f.kind f.tpsl_mode f e p x there held)
    ]
  ]

  drain_all-Stays : (fs : List Fill) (x : Exchange) → Inv x → Stays Inv (drain_all fs x)
  unfolding drain_all
  drain_all-Stays [] x m = laws.queued [] x m
  drain_all-Stays (f ∷ fs) x m =
      elim (drain_sl_tp_fill f (record x { pending = fs }))
          as (λ r.
            Keeps Inv (record x { pending = fs }) r
            → Stays Inv (elim r [
              | err e ↦ (some e, record x { pending = fs })
              | ok x' ↦ drain_all fs x'
            ])) [
              | err e ↦ λ k. laws.queued fs x m
              | ok x' ↦ λ k. drain_all-Stays fs x' (k (laws.queued fs x m))
            ]
        (drain-Keeps f (record x { pending = fs }))

  and_then-Stays :
      (s : Stepped) (k : Exchange → Stepped)
      → Stays Inv s
      → ((y : Exchange) → Inv y → Stays Inv (k y))
      → Stays Inv (and_then s k)
  and_then-Stays (none, y) k m next = next y m
  and_then-Stays (some e, y) k m next = m

  enqueue-Stays : (f : Option Fill) (x : Exchange) → Inv x → Inv (enqueue f x)
  unfolding enqueue
  enqueue-Stays none x m = m
  enqueue-Stays (some f) x m = laws.queued (x.pending ++ (f ∷ [])) x m

  check-Stays :
      (symbol now : ℕ) (low high : Decimal) (x : Exchange)
      → Inv x
      → Stays Inv (check_sl_tp_crosses symbol now low high x)
  unfolding check_sl_tp_crosses
  check-Stays symbol now low high x m =
      elim (cross_entry symbol now low high (x.active symbol))
        as (λ r. Stays Inv (elim r [ err e ↦ (some e, x) | ok f ↦ (none, enqueue f x) ])) [
          | err e ↦ m
          | ok f ↦ enqueue-Stays f x m
        ]

  sweep-Stays :
      (symbol now : ℕ) (low high : Decimal) (x : Exchange)
      → Inv x
      → Stays Inv (sweep symbol now low high x)
  unfolding sweep
  sweep-Stays symbol now low high x m =
      and_then-Stays (check_sl_tp_crosses symbol now low high x) (λ y. drain_all y.pending y)
        (check-Stays symbol now low high x m) (λ y n. drain_all-Stays y.pending y n)

  pub on_candle-Stays :
      (c : Candle) (now : ℕ) (x : Exchange) → Inv x → Stays Inv (on_candle c now x)
  unfolding on_candle
  on_candle-Stays c now x m =
      elim c.is_closed
        as (λ b.
          Stays Inv
            (elim b [ false ↦ (none, x) | true ↦ sweep c.symbol now c.low c.high (cache c x) ])) [
              | false ↦ m
              | true ↦ sweep-Stays c.symbol now c.low c.high (cache c x) (laws.cached c x m)
            ]

  segment-Stays :
      (symbol now : ℕ) (from upto : Decimal) (x : Exchange)
      → Inv x
      → Stays Inv (segment symbol now from upto x)
  unfolding segment
  segment-Stays symbol now from upto x m =
      sweep-Stays symbol now (min_dec from upto) (max_dec from upto) x m

  walk-Stays :
      (symbol now : ℕ) (path : Option (Decimal × Decimal × Decimal × Decimal)) (x : Exchange)
      → Inv x
      → Stays Inv (walk_path symbol now path x)
  unfolding walk_path
  walk-Stays symbol now none x m = m
  walk-Stays symbol now (some (o, p1, p2, c)) x m =
      and_then-Stays (and_then (segment symbol now o p1 x) (segment symbol now p1 p2))
        (segment symbol now p2 c)
        (and_then-Stays (segment symbol now o p1 x) (segment symbol now p1 p2)
          (segment-Stays symbol now o p1 x m) (segment-Stays symbol now p1 p2))
        (segment-Stays symbol now p2 c)

  pub replay-Stays : (c : Candle) (x : Exchange) → Inv x → Stays Inv (process_replay_candle c x)
  unfolding process_replay_candle
  replay-Stays c x m =
      walk-Stays c.symbol c.bucket_start
        (generate_intra_candle_path c.open_price c.high c.low c.close)
        (cache (record c { is_closed = true }) x) (laws.cached (record c { is_closed = true }) x m)
