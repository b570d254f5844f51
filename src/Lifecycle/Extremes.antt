-- ===== src/Lifecycle/Extremes.antt =====
-- The best price that the monitor keeps is the most favourable of the prices that it saw.
use scalper_v.Base.{
  ◌≡◌, refl, ap, sym, subst, ◌⊎◌, inl, inr, arith, true, Option, none, some, List, [], ◌∷◌, All,
}
use scalper_v.Domain.{Side, buy, sell}
use scalper_v.Decimal.{Decimal, ◌≤?◌}
use scalper_v.Decimal.Order.{≤?_refl, ≤?_trans, <?-≤?, <?-false}
use scalper_v.Lifecycle.Moves.{update_best_price}

-- The column after the prices, the newest of them first.
pub best_of : Side → List Decimal → Option Decimal
best_of side [] = none
best_of side (p ∷ ps) = some (update_best_price side p (best_of side ps))

-- A price is no better than another for a side.
abbrev pub NoBetter : Side → Decimal → Decimal → Type 0
NoBetter buy a b = (a ≤? b) ≡ true
NoBetter sell a b = (b ≤? a) ≡ true

abbrev pub Occurs : Decimal → List Decimal → Type 0
Occurs b [] = ⊥
Occurs b (p ∷ ps) = (b ≡ p) ⊎ Occurs b ps

NoBetter-refl : (side : Side) (a : Decimal) → NoBetter side a a
NoBetter-refl buy a = ≤?_refl a
NoBetter-refl sell a = ≤?_refl a

NoBetter-trans :
    (side : Side) (a b c : Decimal) → NoBetter side a b → NoBetter side b c → NoBetter side a c
NoBetter-trans buy a b c h k = ≤?_trans a b c h k
NoBetter-trans sell a b c h k = ≤?_trans c b a k h

update_current : (side : Side) (p b : Decimal) → NoBetter side p (update_best_price side p (some b))
unfolding update_best_price
update_current buy p b = ground (arith, ≤?_refl p, <?-false b p)
update_current sell p b = ground (arith, ≤?_refl p, <?-false p b)

update_old : (side : Side) (p b : Decimal) → NoBetter side b (update_best_price side p (some b))
unfolding update_best_price
update_old buy p b = ground (arith, ≤?_refl b, <?-≤? b p)
update_old sell p b = ground (arith, ≤?_refl b, <?-≤? p b)

update_either :
    (side : Side) (p b : Decimal)
    → (update_best_price side p (some b) ≡ p) ⊎ (update_best_price side p (some b) ≡ b)
unfolding update_best_price
update_either buy p b = ground arith
update_either sell p b = ground arith

All-NoBetter :
    (side : Side) (b c : Decimal) (ps : List Decimal)
    → NoBetter side b c
    → All (λ q. NoBetter side q b) ps
    → All (λ q. NoBetter side q c) ps
All-NoBetter side b c [] h a = tt
All-NoBetter side b c (p ∷ ps) h a =
    (NoBetter-trans side p b c a.0 h, All-NoBetter side b c ps h a.1)

Occurs-update :
    (side : Side) (p b : Decimal) (ps : List Decimal)
    → Occurs b ps
    → Occurs (update_best_price side p (some b)) (p ∷ ps)
Occurs-update side p b ps h = elim (update_either side p b) [
  | inl e ↦ inl e
  | inr e ↦ inr (subst (λ c. Occurs c ps) (sym e) h)
]

update_first : (side : Side) (p : Decimal) → update_best_price side p none ≡ p
unfolding update_best_price
update_first side p = refl

-- After a run of prices the best price is one of them, and none of them is better for the side of the
-- trade: the highest for a long one, the lowest for a short one.
pub best_of-extremal :
    (side : Side) (p : Decimal) (ps : List Decimal)
    → (b : Decimal) × (best_of side (p ∷ ps) ≡ some b)
      × All (λ q. NoBetter side q b) (p ∷ ps)
      × Occurs b (p ∷ ps)
unfolding best_of
best_of-extremal side p [] =
    (p, ap some (update_first side p), (NoBetter-refl side p, tt), inl refl)
best_of-extremal side p (q ∷ qs) =
    let (b, e, a, o) = best_of-extremal side q qs in
    let c = update_best_price side p (some b) in
    (
      c,
      ap (λ old. some (update_best_price side p old)) e,
      (update_current side p b, All-NoBetter side b c (q ∷ qs) (update_old side p b) a),
      Occurs-update side p b (q ∷ qs) o,
    )
