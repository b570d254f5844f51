-- ===== src/Sizing/Verdicts.antt =====
-- What the two sizing pipelines return.
use scalper_v.Base.{
  ℕ, ◌+◌, ◌*◌, ◌^◌, ◌≤◌, ◌≡◌, ◌≢◌, ◌⊎◌, refl, ap, ◌∙◌, arith, true, false, Option, some, List,
  Option-cases, Bool-cases, inl, inr,
}
use scalper_v.Base.Int.{ℤ, pos, negsuc, pos_part, neg_part}
use scalper_v.Decimal.{Decimal, int, ◌≤?◌, min_dec, magnitude, ◌*ᵈ◌}
use scalper_v.Decimal.Division.{◌/ᵈ◌, div-some}
use scalper_v.Decimal.Order.{lhs, ≤?_refl, le-≤?, <?-false}
use scalper_v.Sizing.{
  SizingTier, Multipliers, Caps, cap_of, cap_notional, Sized, skipped, value_error,
  division_by_zero, sized, of_quotient, select_tier, of_tier, of_notional, compute_qty_from_sizing,
  compute_qty_from_risk,
}

cap_notional-le :
    (notional : Decimal) (caps : Caps) (symbol : ℕ)
    → (cap_notional notional caps symbol ≤? cap_of caps symbol) ≡ true
unfolding cap_notional min_dec
cap_notional-le notional caps symbol =
    ground (arith, ≤?_refl (cap_of caps symbol), <?-false (cap_of caps symbol) notional)

pos_part-zero : (c : ℤ) → magnitude c ≡ 0 → pos_part c ≡ 0
unfolding magnitude
pos_part-zero (pos n) h = omega (arith, h)
pos_part-zero (negsuc n) h = refl

no_multiples : (n k m l x : ℕ) → n ≡ 0 → m ≡ 0 → n * k + m * l ≤ x
no_multiples n k m l x g h = rw (g, h) (omega arith)

zero-lhs : (a b : Decimal) → pos_part a.coeff ≡ 0 → neg_part b.coeff ≡ 0 → lhs a b ≤ lhs b a
zero-lhs a b g h =
    no_multiples (pos_part a.coeff) (10 ^ a.exp) (neg_part b.coeff) (10 ^ b.exp) _ g h

positive-nonzero : (a : Decimal) → (a ≤? int (pos 0)) ≡ false → magnitude a.coeff ≢ 0
positive-nonzero a h e =
    cc (h, le-≤? a (int (pos 0)) (zero-lhs a (int (pos 0)) (pos_part-zero a.coeff e) refl))

-- A quantity that buys a notional within the cap of its symbol.
abbrev pub WithinCap : Decimal → Caps → ℕ → Sized → Type 0
WithinCap mark caps symbol (sized qty) =
    (notional : Decimal) × ((notional ≤? cap_of caps symbol) ≡ true) × (notional /ᵈ mark ≡ some qty)
WithinCap mark caps symbol skipped = Unit {0}
WithinCap mark caps symbol value_error = Unit {0}
WithinCap mark caps symbol division_by_zero = Unit {0}

quotient-WithinCap :
    (mark notional : Decimal) (caps : Caps) (symbol : ℕ)
    → WithinCap mark caps symbol (of_quotient (cap_notional notional caps symbol /ᵈ mark))
quotient-WithinCap mark notional caps symbol =
    elim (Option-cases (cap_notional notional caps symbol /ᵈ mark)) [
      | inl failed ↦ rw failed tt
      | inr (q, e) ↦
          rw e (cap_notional notional caps symbol, cap_notional-le notional caps symbol, e)
    ]

tier-WithinCap :
    (mark : Decimal) (score : Option Decimal) (multipliers : Multipliers) (caps : Caps) (symbol : ℕ)
    (t : SizingTier)
    → WithinCap mark caps symbol (of_tier mark score multipliers caps symbol (some t))
unfolding of_tier
tier-WithinCap mark score multipliers caps symbol t = elim (Bool-cases (mark ≤? int (pos 0))) [
  | inl bad ↦ rw bad tt
  | inr good ↦ rw good (quotient-WithinCap mark _ caps symbol)
]

-- A quantity that the pipeline over the ladder sizes buys, at the mark price, a notional within the cap
-- of the symbol.
pub compute_qty_from_sizing-WithinCap :
    (equity mark : Decimal) (tiers : List SizingTier) (score : Option Decimal)
    (multipliers : Multipliers) (caps : Caps) (symbol : ℕ)
    → WithinCap mark caps symbol
        (compute_qty_from_sizing equity mark tiers score multipliers caps symbol)
unfolding compute_qty_from_sizing
compute_qty_from_sizing-WithinCap equity mark tiers score multipliers caps symbol =
    elim (Option-cases (select_tier equity tiers)) [
      | inl none_reached ↦ rw none_reached tt
      | inr (t, e) ↦ rw e (tier-WithinCap mark score multipliers caps symbol t)
    ]

-- What the division at the end gives for a positive mark price.
notional-sized :
    (mark notional : Decimal) (caps : Caps) (symbol : ℕ)
    → (mark ≤? int (pos 0)) ≡ false
    → (q : Decimal) × (of_notional mark caps symbol (some notional) ≡ sized q)
      × WithinCap mark caps symbol (sized q)
unfolding of_notional
notional-sized mark notional caps symbol good =
    let capped = cap_notional notional caps symbol in
    let (q, e) = div-some capped mark (positive-nonzero mark good) in
    (q, ap of_quotient e, (capped, cap_notional-le notional caps symbol, e))

risk-sized :
    (equity mark sl_pct risk_pct : Decimal) (caps : Caps) (symbol : ℕ)
    → (mark ≤? int (pos 0)) ≡ false
    → (sl_pct ≤? int (pos 0)) ≡ false
    → (q : Decimal) × (of_notional mark caps symbol (equity *ᵈ risk_pct /ᵈ sl_pct) ≡ sized q)
      × WithinCap mark caps symbol (sized q)
risk-sized equity mark sl_pct risk_pct caps symbol good stop =
    let (notional, d) = div-some (equity *ᵈ risk_pct) sl_pct (positive-nonzero sl_pct stop) in
    let (q, e, within) = notional-sized mark notional caps symbol good in
    (q, ap (of_notional mark caps symbol) d ∙ e, within)

abbrev pub IsPositive : Decimal → Type 0
IsPositive a = (a ≤? int (pos 0)) ≡ false

abbrev pub IsNotPositive : Decimal → Type 0
IsNotPositive a = (a ≤? int (pos 0)) ≡ true

-- Sizing by risk skips exactly without equity; with equity it raises exactly if the mark price, the
-- stop distance or the risk is not positive; and otherwise, never dividing by zero, it returns a
-- quantity that buys a notional within the cap of the symbol.
pub compute_qty_from_risk-verdicts :
    (equity mark sl_pct risk_pct : Decimal) (caps : Caps) (symbol : ℕ)
    → let result = compute_qty_from_risk equity mark sl_pct risk_pct caps symbol in
      (IsNotPositive equity × (result ≡ skipped))
      ⊎ (IsPositive equity
          × (IsNotPositive mark ⊎ IsNotPositive sl_pct ⊎ IsNotPositive risk_pct)
          × (result ≡ value_error))
      ⊎ (IsPositive equity
          × IsPositive mark
          × IsPositive sl_pct
          × IsPositive risk_pct
          × (q : Decimal) × (result ≡ sized q)
          × WithinCap mark caps symbol (sized q))
unfolding compute_qty_from_risk
compute_qty_from_risk-verdicts equity mark sl_pct risk_pct caps symbol =
    elim (Bool-cases (equity ≤? int (pos 0))) [
      | inl broke ↦ inl (broke, rw broke refl)
      | inr funded ↦ inr (elim (Bool-cases (mark ≤? int (pos 0))) [
        | inl bad ↦ inl (funded, inl bad, rw (funded, bad) refl)
        | inr mark_ok ↦ elim (Bool-cases (sl_pct ≤? int (pos 0))) [
          | inl bad ↦ inl (funded, inr (inl bad), rw (funded, mark_ok, bad) refl)
          | inr sl_ok ↦ elim (Bool-cases (risk_pct ≤? int (pos 0))) [
            | inl bad ↦ inl (funded, inr (inr bad), rw (funded, mark_ok, sl_ok, bad) refl)
            | inr risk_ok ↦
                let (q, e, within) =
                  risk-sized equity mark sl_pct risk_pct caps symbol mark_ok sl_ok in
                inr (
                  funded,
                  mark_ok,
                  sl_ok,
                  risk_ok,
                  q,
                  rw (funded, mark_ok, sl_ok, risk_ok) e,
                  within,
                )
          ]
        ]
      ])
    ]
