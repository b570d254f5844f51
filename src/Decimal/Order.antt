-- ===== src/Decimal/Order.antt =====
-- The comparisons of decimals are those of a total preorder.
use native.Mathlib.Nat.{mul-le-mul_right, min_comm}
use mathlib.Core.Bool.{false≢true}
use scalper_v.Base.{
  min, ◌∙◌, Bool-cases, inl, inr, ℕ, ◌+◌, ◌-◌, ◌*◌, ◌^◌, ◌≤◌, ◌≡◌, sym, ap, ap₂, ◌<◌, not, true,
  false, arith, leb, leb→le, le→leb,
}
use scalper_v.Base.Int.{pos_part, neg_part, pos_part-scale, neg_part-scale}
use scalper_v.Base.Powers.{ten_pow-pos, ten_pow-add, le_of_mul}
use scalper_v.Decimal.{Decimal, aligned, ◌<?◌, ◌≤?◌}

-- Both sides of a comparison, over the least exponent of the context.
abbrev pub lhs : Decimal → Decimal → ℕ
lhs a b = pos_part a.coeff * 10 ^ a.exp + neg_part b.coeff * 10 ^ b.exp

leb-false : (a b : ℕ) → leb a b ≡ false → b < a
leb-false a b h = ground arith

split_pow : (m n : ℕ) → 10 ^ m ≡ 10 ^ (m - n) * 10 ^ min m n
split_pow m n = ap (λ k. 10 ^ k) e ∙ ten_pow-add (m - n) (min m n)
  where
    e : m ≡ (m - n) + min m n
    e = omega arith

leb-mul : (p q k : ℕ) → 1 ≤ k → leb (p * k) (q * k) ≡ leb p q
leb-mul p q k h = elim (Bool-cases (leb p q)) [
  | inl e ↦ rw e (le→leb _ _ (mul-le-mul_right k (leb→le p q e)))
  | inr e ↦ elim (Bool-cases (leb (p * k) (q * k))) [
    | inl f ↦ absurd (false≢true (rw (← e) (le→leb p q (le_of_mul p q k h (leb→le _ _ f)))))
    | inr f ↦ rw (e, f)
  ]
]

lhs-aligned :
    (a b : Decimal)
    → lhs a b ≡ (pos_part (aligned a b) + neg_part (aligned b a)) * 10 ^ min a.exp b.exp
lhs-aligned a b =
    rw
      (
        pos_part-scale,
        neg_part-scale,
        split_pow a.exp b.exp,
        split_pow b.exp a.exp,
        min_comm b.exp a.exp,
      )
      (omega arith)

-- The test compares exact values.
pub leb-lhs : (a b : Decimal) → (a ≤? b) ≡ leb (lhs a b) (lhs b a)
unfolding ◌≤?◌
leb-lhs a b =
    let k = 10 ^ min a.exp b.exp in
    sym (
      ap₂ leb (lhs-aligned a b) (
        lhs-aligned b a
        ∙ ap (λ n. (pos_part (aligned b a) + neg_part (aligned a b)) * 10 ^ n)
            (min_comm b.exp a.exp))
      ∙ leb-mul _ _ k (ten_pow-pos (min a.exp b.exp)))

-- A decimal is less than another exactly when it is not at least the other.
pub <?-not : (a b : Decimal) → (a <? b) ≡ not (b ≤? a)
unfolding ◌<?◌ ◌≤?◌
<?-not a b = ground arith

pub ≤?-le : (a b : Decimal) → (a ≤? b) ≡ true → lhs a b ≤ lhs b a
≤?-le a b h = leb→le _ _ (sym (leb-lhs a b) ∙ h)

pub le-≤? : (a b : Decimal) → lhs a b ≤ lhs b a → (a ≤? b) ≡ true
le-≤? a b h = leb-lhs a b ∙ le→leb _ _ h

pub ≤?_refl : (a : Decimal) → (a ≤? a) ≡ true
≤?_refl a = le-≤? a a (omega arith)

pub ≤?_trans : (a b c : Decimal) → (a ≤? b) ≡ true → (b ≤? c) ≡ true → (a ≤? c) ≡ true
≤?_trans a b c h k = le-≤? a c (omega (arith, ≤?-le a b h, ≤?-le b c k))

pub ≤?_total : (a b : Decimal) → (a ≤? b) ≡ false → (b ≤? a) ≡ true
≤?_total a b h = le-≤? b a (omega (arith, leb-false _ _ (sym (leb-lhs a b) ∙ h)))

pub <?-≤? : (a b : Decimal) → (a <? b) ≡ true → (a ≤? b) ≡ true
<?-≤? a b h = ground (arith, <?-not a b, ≤?_total b a)

pub <?-false : (a b : Decimal) → (a <? b) ≡ false → (b ≤? a) ≡ true
<?-false a b h = ground (arith, <?-not a b)
