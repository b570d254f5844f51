-- ===== src/Sizing/Ladder.antt =====
-- The ladder of tiers: the highest tier within reach is selected.
use scalper_v.Base.{
  ◌≡◌, refl, arith, Bool-cases, inl, inr, true, false, Option, none, some, List, [], ◌∷◌, All, Memᴰ,
}
use mathlib.Core.List.Memᴰ.{head, tail}
use scalper_v.Decimal.{Decimal, ◌≤?◌}
use scalper_v.Decimal.Order.{≤?_trans, ≤?_refl}
use scalper_v.Sizing.{SizingTier, select_from, select_tier}

-- The tiers ascend: each asks for no less than those before it.
unfoldable pub Ascending : List SizingTier → Type 0
Ascending [] = Unit {0}
Ascending (t ∷ ts) = All (λ u. (t.balance_min ≤? u.balance_min) ≡ true) ts × Ascending ts

-- A tier that is within reach, and no tier of the list that is within reach asks for more.
abbrev Tops : Decimal → List SizingTier → SizingTier → Type 0
Tops equity tiers t =
    ((t.balance_min ≤? equity) ≡ true)
    × All (λ u. (u.balance_min ≤? equity) ≡ true → (u.balance_min ≤? t.balance_min) ≡ true) tiers

-- Such a tier of the ladder, or none where no tier is within reach.
abbrev pub IsHighest : Decimal → List SizingTier → Option SizingTier → Type 0
IsHighest equity tiers none = All (λ u. (u.balance_min ≤? equity) ≡ false) tiers
IsHighest equity tiers (some t) = Memᴰ t tiers × Tops equity tiers t

out_of_reach :
    (equity low : Decimal) (ts : List SizingTier)
    → (low ≤? equity) ≡ false
    → All (λ u. (low ≤? u.balance_min) ≡ true) ts
    → All (λ u. (u.balance_min ≤? equity) ≡ false) ts
out_of_reach equity low [] h a = tt
out_of_reach equity low (u ∷ us) h a =
    (ground (arith, ≤?_trans low u.balance_min equity), out_of_reach equity low us h a.1)

unreachable :
    (equity : Decimal) (t : SizingTier) (ts : List SizingTier)
    → All (λ u. (u.balance_min ≤? equity) ≡ false) ts
    → All (λ u. (u.balance_min ≤? equity) ≡ true → (u.balance_min ≤? t.balance_min) ≡ true) ts
unreachable equity t [] a = tt
unreachable equity t (u ∷ us) a = ((λ h. cc), unreachable equity t us a.1)

-- The loop from a tier that is within reach and below those that follow.
select_from-IsHighest :
    (equity : Decimal) (s : SizingTier) (ts : List SizingTier)
    → Ascending ts
    → (s.balance_min ≤? equity) ≡ true
    → All (λ u. (s.balance_min ≤? u.balance_min) ≡ true) ts
    → (t : SizingTier) × (select_from equity (some s) ts ≡ some t)
      × ((s.balance_min ≤? t.balance_min) ≡ true)
      × Memᴰ t (s ∷ ts)
      × Tops equity ts t
unfolding select_from Ascending
select_from-IsHighest equity s [] asc reach below =
    (s, refl, ≤?_refl s.balance_min, head refl, (reach, tt))
select_from-IsHighest equity s (u ∷ us) asc reach below =
    elim (Bool-cases (u.balance_min ≤? equity)) [
      | inl reached ↦
          let (t, e, above, there, highest) =
            select_from-IsHighest equity u us asc.1 reached asc.0 in
          (
            t,
            rw reached e,
            ≤?_trans s.balance_min u.balance_min t.balance_min below.0 above,
            tail there,
            (highest.0, ((λ h. above), highest.1)),
          )
      | inr missed ↦ (
        s,
        rw missed refl,
        ≤?_refl s.balance_min,
        head refl,
        (
          reach,
          ((λ h. cc), unreachable equity s us (out_of_reach equity u.balance_min us missed asc.0)),
        ),
      )
    ]

-- On an ascending ladder `select_tier` gives a tier of the ladder that asks for most among those whose
-- minimum the equity reaches, the boundary included; if it gives none, the equity reaches no tier.
pub select_tier-IsHighest :
    (equity : Decimal) (tiers : List SizingTier)
    → Ascending tiers
    → IsHighest equity tiers (select_tier equity tiers)
unfolding select_tier select_from Ascending
select_tier-IsHighest equity [] asc = tt
select_tier-IsHighest equity (u ∷ us) asc = elim (Bool-cases (u.balance_min ≤? equity)) [
  | inl reached ↦
      let (t, e, above, there, highest) = select_from-IsHighest equity u us asc.1 reached asc.0 in
      rw (reached, e) (there, (highest.0, ((λ h. above), highest.1)))
  | inr missed ↦ rw missed (missed, out_of_reach equity u.balance_min us missed asc.0)
]
