-- ===== src/Sizing/Examples.antt =====
-- The sizing at the values of the docstrings of packages/sizing/compute.py.
use scalper_v.Base.{ℕ, ◌≡◌, refl, ◌⊎◌, true, some, List, [], ◌∷◌}
use scalper_v.Base.Int.{pos}
use scalper_v.Decimal.{Decimal, int, fixed, ◌≤?◌, ◌=?◌}
use scalper_v.Sizing.{
  SizingTier, Multipliers, Caps, select_tier, apply_score_multiplier, cap_notional, skipped,
  value_error, sized, compute_qty_from_sizing, compute_qty_from_risk,
}
use scalper_v.Sizing.Ladder.{Ascending, IsHighest, select_tier-IsHighest}
use scalper_v.Sizing.Verdicts.{
  WithinCap, IsPositive, IsNotPositive, compute_qty_from_sizing-WithinCap,
  compute_qty_from_risk-verdicts,
}

abbrev tier : ℕ → ℕ → SizingTier
tier low size = record { balance_min = int (pos low); size = int (pos size) }

abbrev tiers : List SizingTier
tiers = tier 500 700 ∷ tier 1000 1400 ∷ tier 2000 2100 ∷ tier 4000 2800 ∷ []

abbrev multipliers : Multipliers
multipliers =
    (4, fixed (pos 75) 2)
    ∷ (5, fixed (pos 10) 1)
    ∷ (6, fixed (pos 125) 2)
    ∷ (9, fixed (pos 15) 1)
    ∷ []

abbrev caps : Caps
caps = record { by_default = int (pos 3000); by_symbol = (1, int (pos 5000)) ∷ [] }

ascending : Ascending tiers
unfolding Ascending ◌≤?◌
ascending = ((refl, (refl, (refl, tt))), ((refl, (refl, tt)), ((refl, tt), (tt, tt))))

select_tier-IsHighest_example :
    IsHighest (int (pos 1500)) tiers (select_tier (int (pos 1500)) tiers)
select_tier-IsHighest_example = select_tier-IsHighest (int (pos 1500)) tiers ascending

compute_qty_from_sizing-WithinCap_example : WithinCap (fixed (pos 4_250_075) 2) caps 2 (
    compute_qty_from_sizing
      (int (pos 1500))
      (fixed (pos 4_250_075) 2)
      tiers
      (some (fixed (pos 67) 1))
      multipliers
      caps
      2)
compute_qty_from_sizing-WithinCap_example =
    compute_qty_from_sizing-WithinCap (int (pos 1500)) (fixed (pos 4_250_075) 2) tiers
      (some (fixed (pos 67) 1)) multipliers caps 2

compute_qty_from_risk-verdicts_example :
    let result =
      compute_qty_from_risk
        (int (pos 10_000))
        (int (pos 50_000))
        (fixed (pos 2) 2)
        (fixed (pos 1) 2)
        caps
        1 in
    (IsNotPositive (int (pos 10_000)) × (result ≡ skipped))
    ⊎ (IsPositive (int (pos 10_000))
        × (IsNotPositive (int (pos 50_000))
            ⊎ IsNotPositive (fixed (pos 2) 2)
            ⊎ IsNotPositive (fixed (pos 1) 2))
        × (result ≡ value_error))
    ⊎ (IsPositive (int (pos 10_000))
        × IsPositive (int (pos 50_000))
        × IsPositive (fixed (pos 2) 2)
        × IsPositive (fixed (pos 1) 2)
        × (q : Decimal) × (result ≡ sized q)
        × WithinCap (int (pos 50_000)) caps 1 (sized q))
compute_qty_from_risk-verdicts_example =
    compute_qty_from_risk-verdicts (int (pos 10_000)) (int (pos 50_000)) (fixed (pos 2) 2)
      (fixed (pos 1) 2) caps 1

-- Tests: the multiplier of a score of 6.7, of 2.5 and of 11, and a cap.
scores :
    ((apply_score_multiplier (int (pos 1400)) (some (fixed (pos 67) 1)) multipliers
        =? int (pos 1750))
      ≡ true)
    × ((apply_score_multiplier (int (pos 1400)) (some (fixed (pos 25) 1)) multipliers
          =? int (pos 1050))
        ≡ true)
    × ((apply_score_multiplier (int (pos 1400)) (some (int (pos 11))) multipliers =? int (pos 2100))
        ≡ true)
    × (cap_notional (int (pos 6000)) caps 1 ≡ int (pos 5000))
unfolding apply_score_multiplier cap_notional ◌=?◌
scores = (refl, refl, refl, refl)
