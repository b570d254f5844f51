-- ===== src/Sizing.antt =====
-- packages/sizing/compute.py: how large a position a signal opens.
pub mod Ladder
pub mod Verdicts
mod Examples
use scalper_v.Base.{
  ℕ, ◌*◌, ◌-◌, ◌^◌, min, max, Bool, true, false, Option, none, some, List, [], ◌∷◌, ◌==◌,
  if◌then◌else◌,
}
use scalper_v.Base.Int.{ℤ, pos, negsuc, scale}
use scalper_v.Decimal.{Decimal, int, bias, ◌≤?◌, ◌*ᵈ◌, min_dec}
use scalper_v.Decimal.Division.{◌/ᵈ◌, round_floor, to_integral_value}

pub record SizingTier : Type 0 where
  pub balance_min : Decimal
  pub size : Decimal

-- `score_multipliers`, whose keys are canonical numerals.
abbrev pub Multipliers : Type 0
Multipliers = List (ℕ × Decimal)

-- `max_notional_per_symbol`, which has a default by the guards of `SizingSection`.
pub record Caps : Type 0 where
  pub by_default : Decimal
  pub by_symbol : List (ℕ × Decimal)

-- The loop of `select_tier`, with what is selected so far; it stops at the first tier out of reach.
unfoldable pub select_from : Decimal → Option SizingTier → List SizingTier → Option SizingTier
unfolding ◌≤?◌
select_from equity selected [] = selected
select_from equity selected (t ∷ ts) =
    let further = select_from equity (some t) ts in
    if t.balance_min ≤? equity then further else selected

unfoldable pub select_tier : Decimal → List SizingTier → Option SizingTier
unfolding select_from
select_tier equity tiers = select_from equity none tiers

-- `d.get(k)`
unfoldable pub value_of : ℕ → List (ℕ × Decimal) → Option Decimal
value_of k [] = none
value_of k ((j, v) ∷ d) = if j == k then some v else value_of k d

least_key : ℕ → Multipliers → ℕ
least_key k [] = k
least_key k ((j, v) ∷ d) = min k (least_key j d)

greatest_key : ℕ → Multipliers → ℕ
greatest_key k [] = k
greatest_key k ((j, v) ∷ d) = max k (greatest_key j d)

-- `floor(score)`; a score is a binary fraction, which a decimal holds.
floor_of : Decimal → ℤ
unfolding to_integral_value
floor_of score =
    let whole = to_integral_value round_floor score in scale whole.coeff (10 ^ (whole.exp - bias))

-- `min(max(n, low), high)`, where the two bounds are numerals.
clamp : ℤ → ℕ → ℕ → ℕ
clamp (pos n) low high = min (max n low) high
clamp (negsuc n) low high = min low high

scale_by : Decimal → Option Decimal → Decimal
scale_by notional none = notional
scale_by notional (some m) = notional *ᵈ m

unfoldable pub apply_score_multiplier : Decimal → Option Decimal → Multipliers → Decimal
unfolding value_of least_key greatest_key floor_of clamp scale_by ◌*ᵈ◌
apply_score_multiplier notional none d = notional
apply_score_multiplier notional (some score) [] = notional
apply_score_multiplier notional (some score) ((j, v) ∷ d) =
    scale_by notional
      (value_of (clamp (floor_of score) (least_key j d) (greatest_key j d)) ((j, v) ∷ d))

cap_or : Decimal → Option Decimal → Decimal
cap_or d none = d
cap_or d (some v) = v

-- `max_notional_per_symbol.get(symbol, max_notional_per_symbol["default"])`
unfoldable pub cap_of : Caps → ℕ → Decimal
unfolding cap_or value_of
cap_of caps symbol = cap_or caps.by_default (value_of symbol caps.by_symbol)

unfoldable pub cap_notional : Decimal → Caps → ℕ → Decimal
unfolding cap_of min_dec
cap_notional notional caps symbol = min_dec notional (cap_of caps symbol)

-- `skipped` is the `None` of the orchestrators, `value_error` their `ValueError`, and
-- `division_by_zero` an error of the arithmetic.
pub data Sized : Type 0 where
  skipped value_error division_by_zero : Sized
  sized : Decimal → Sized

abbrev pub of_quotient : Option Decimal → Sized
of_quotient none = division_by_zero
of_quotient (some q) = sized q

unfoldable pub of_tier :
    Decimal → Option Decimal → Multipliers → Caps → ℕ → Option SizingTier → Sized
unfolding apply_score_multiplier cap_notional ◌/ᵈ◌
of_tier mark score multipliers caps symbol none = skipped
of_tier mark score multipliers caps symbol (some t) =
    if mark ≤? int (pos 0)
    then value_error
    else of_quotient
        (cap_notional (apply_score_multiplier t.size score multipliers) caps symbol /ᵈ mark)

unfoldable pub compute_qty_from_sizing :
    Decimal → Decimal → List SizingTier → Option Decimal → Multipliers → Caps → ℕ → Sized
unfolding select_tier of_tier
compute_qty_from_sizing equity mark tiers score multipliers caps symbol =
    of_tier mark score multipliers caps symbol (select_tier equity tiers)

unfoldable pub of_notional : Decimal → Caps → ℕ → Option Decimal → Sized
unfolding cap_notional ◌/ᵈ◌
of_notional mark caps symbol none = division_by_zero
of_notional mark caps symbol (some notional) =
    of_quotient (cap_notional notional caps symbol /ᵈ mark)

unfoldable pub compute_qty_from_risk : Decimal → Decimal → Decimal → Decimal → Caps → ℕ → Sized
unfolding of_notional ◌*ᵈ◌ ◌/ᵈ◌
compute_qty_from_risk equity mark sl_pct risk_pct caps symbol =
    if equity ≤? int (pos 0)
    then skipped
    else if mark ≤? int (pos 0)
    then value_error
    else if sl_pct ≤? int (pos 0)
    then value_error
    else if risk_pct ≤? int (pos 0)
    then value_error
    else of_notional mark caps symbol (equity *ᵈ risk_pct /ᵈ sl_pct)
