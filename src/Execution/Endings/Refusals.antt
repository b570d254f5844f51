-- ===== src/Execution/Endings/Refusals.antt =====
-- services/execution/app/placement.py: the outcomes of the checks before the trade.
use scalper_v.Base.{Bool, true, false, Option, none, some, if◌then◌else◌}
use scalper_v.Decimal.{Decimal}
use scalper_v.Engine.{OrderRequest, SizingSpec}
use scalper_v.Sizing.{
  Sized, skipped, value_error, division_by_zero, sized, compute_qty_from_sizing,
  compute_qty_from_risk,
}
use scalper_v.Quantize.{InstrumentInfo, Quantized, on_grid, below_minimum, arithmetic, quantize_qty}
use scalper_v.Execution.{
  rate_limit_error, auth_error, order_rejected, network_timeout, unknown_state, other_error, Reply,
  answer, fails,
}
use scalper_v.Execution.Prices.{compute_tp_size}
use scalper_v.Execution.Place.{
  PlaceEnv, Outcome, sizing_fetch_failed, sizing_compute_failed, sub_lowest_tier, qty_invalid,
  instrument_failed, tp_unsatisfiable, leverage_failed, place_failed, fill_unresolved, paper_placed,
  emergency_closed, persist_failed, placed, crashed, Stage, further, done, ◌>>=◌, of_sized, of_risk,
  of_tiers, fetched, working_qty, validated, validated_on, preflight,
}

-- The outcomes that the checks can have.
abbrev pub IsRefusal : Outcome → Type 0
IsRefusal sizing_fetch_failed = Unit
IsRefusal sizing_compute_failed = Unit
IsRefusal sub_lowest_tier = Unit
IsRefusal qty_invalid = Unit
IsRefusal instrument_failed = Unit
IsRefusal tp_unsatisfiable = Unit
IsRefusal crashed = Unit
IsRefusal leverage_failed = ⊥
IsRefusal place_failed = ⊥
IsRefusal fill_unresolved = ⊥
IsRefusal paper_placed = ⊥
IsRefusal emergency_closed = ⊥
IsRefusal persist_failed = ⊥
IsRefusal placed = ⊥

abbrev pub Refuses {ℓ} : {A : Type ℓ} → Stage A → Type 0
Refuses (further a) = Unit
Refuses (done o) = IsRefusal o

Refuses-bind {ℓ κ} :
    {A : Type ℓ} {B : Type κ} (x : Stage A) (f : A → Stage B)
    → Refuses x
    → ((a : A) → Refuses (f a))
    → Refuses (x >>= f)
Refuses-bind (further a) f h i = i a
Refuses-bind (done o) f h i = h

fetched-Refuses {ℓ} : {A : Type ℓ} (o : Outcome) (r : Reply A) → IsRefusal o → Refuses (fetched o r)
fetched-Refuses o (answer a) h = tt
fetched-Refuses o (fails rate_limit_error) h = h
fetched-Refuses o (fails auth_error) h = h
fetched-Refuses o (fails network_timeout) h = h
fetched-Refuses o (fails order_rejected) h = tt
fetched-Refuses o (fails unknown_state) h = tt
fetched-Refuses o (fails other_error) h = tt

of_sized-Refuses : (s : Sized) → Refuses (of_sized s)
of_sized-Refuses (sized q) = tt
of_sized-Refuses skipped = tt
of_sized-Refuses value_error = tt
of_sized-Refuses division_by_zero = tt

validated-Refuses : (o : Outcome) (q : Quantized) → IsRefusal o → Refuses (validated o q)
validated-Refuses o (on_grid q) h = tt
validated-Refuses o below_minimum h = h
validated-Refuses o arithmetic h = tt

of_risk-Refuses :
    (r : OrderRequest) (s : SizingSpec) (equity mark : Decimal) (pct : Option Decimal)
    → Refuses (of_risk r s equity mark pct)
unfolding of_risk
of_risk-Refuses r s equity mark none = tt
of_risk-Refuses r s equity mark (some pct) =
    of_sized-Refuses
      (compute_qty_from_risk equity mark r.execution.sl_pct pct s.max_notional_per_symbol r.symbol)

of_tiers-Refuses :
    (r : OrderRequest) (s : SizingSpec) (equity mark : Decimal) → Refuses (of_tiers r s equity mark)
unfolding of_tiers
of_tiers-Refuses r s equity mark = of_sized-Refuses (
    compute_qty_from_sizing equity mark s.tiers (some r.score) s.score_multipliers
      s.max_notional_per_symbol r.symbol)

by_risk-Refuses :
    (c : Bool) (x y : Stage Decimal) → Refuses x → Refuses y → Refuses (if c then x else y)
by_risk-Refuses true x y h i = h
by_risk-Refuses false x y h i = i

working_qty-Refuses :
    (env : PlaceEnv) (r : OrderRequest) (s : Option SizingSpec) → Refuses (working_qty env r s)
unfolding working_qty
working_qty-Refuses env r none = tt
working_qty-Refuses env r (some s) =
    Refuses-bind (fetched sizing_fetch_failed env.total_equity)
      (λ equity. do
        mark ← fetched sizing_fetch_failed env.mark_price
        if s.by_risk then of_risk r s equity mark s.risk_pct else of_tiers r s equity mark)
      (fetched-Refuses sizing_fetch_failed env.total_equity tt)
      (λ equity.
        Refuses-bind (fetched sizing_fetch_failed env.mark_price)
          (λ mark.
            if s.by_risk then of_risk r s equity mark s.risk_pct else of_tiers r s equity mark)
          (fetched-Refuses sizing_fetch_failed env.mark_price tt)
          (λ mark.
            by_risk-Refuses s.by_risk (of_risk r s equity mark s.risk_pct)
              (of_tiers r s equity mark) (of_risk-Refuses r s equity mark s.risk_pct)
              (of_tiers-Refuses r s equity mark)))

validated_on-Refuses :
    (r : OrderRequest) (working : Decimal) (info : InstrumentInfo)
    → Refuses (validated_on r working info)
unfolding validated_on
validated_on-Refuses r working info =
    let size : Decimal → Quantized =
      λ q. quantize_qty (compute_tp_size q r.execution.tp_qty_pct) info in
    Refuses-bind (validated qty_invalid (quantize_qty working info))
      (λ qty. do
        tp_size ← validated tp_unsatisfiable (size qty)
        further (record { info = info; qty = qty; tp_size = tp_size }))
      (validated-Refuses qty_invalid (quantize_qty working info) tt)
      (λ qty.
        Refuses-bind (validated tp_unsatisfiable (size qty))
          (λ tp_size. further (record { info = info; qty = qty; tp_size = tp_size }))
          (validated-Refuses tp_unsatisfiable (size qty) tt) (λ tp_size. tt))

pub preflight-Refuses : (env : PlaceEnv) (r : OrderRequest) → Refuses (preflight env r)
unfolding preflight
preflight-Refuses env r =
    Refuses-bind (working_qty env r r.sizing)
      (λ working. do info ← fetched instrument_failed env.instrument; validated_on r working info)
      (working_qty-Refuses env r r.sizing)
      (λ working.
        Refuses-bind (fetched instrument_failed env.instrument) (validated_on r working)
          (fetched-Refuses instrument_failed env.instrument tt) (validated_on-Refuses r working))
