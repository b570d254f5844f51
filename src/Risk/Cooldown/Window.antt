-- ===== src/Risk/Cooldown/Window.antt =====
-- Reading as many rows as `_compute_limit` says is enough: the gate decides as it would over the
-- whole history of the bot.
use scalper_v.Base.{
  ℕ, zero, suc, ◌+◌, ◌*◌, ◌≤◌, ◌<◌, min, ◌≡◌, refl, sym, ◌∙◌, subst, ◌↔◌, ◌⊎◌, inl, inr, Bool, true,
  false, ◌&&◌, Option, none, some, List, [], ◌∷◌, arith, leb, ◌==◌, if◌then◌else◌, take, Bool-cases,
}
use scalper_v.Base.Int.{pos, ltb_ℤ}
use scalper_v.Domain.{minute}
use scalper_v.Risk.Trades.{
  RiskSection, TradeRow, ClosedTradeRow, closed_trades, select_recent_closed_trades,
}
use scalper_v.Risk.Cooldown.{
  CooldownDecision, loss_enabled, streak_enabled, compute_limit, walk_from, walk_streak, deadline,
  combine, build_decision, decide, check_cooldown, inactive,
}

-- The losses at the front of a list, and the time of the newest row if it is a loss.
abbrev pub is_loss : ClosedTradeRow → Bool
is_loss r = ltb_ℤ r.realized_pnl (pos 0)

pub streak : List ClosedTradeRow → ℕ
streak [] = 0
streak (r ∷ rs) = let more = suc (streak rs) in if is_loss r then more else 0

pub fresh_loss : List ClosedTradeRow → Option ℕ
fresh_loss [] = none
fresh_loss (r ∷ rs) = if is_loss r then some r.closed_at else none

walk_from-streak :
    (rows : List ClosedTradeRow) (count at : ℕ)
    → walk_from count (some at) rows ≡ (count + streak rows, some at)
unfolding walk_from streak
walk_from-streak [] count at = ground arith
walk_from-streak (r ∷ rs) count at = ground (arith, walk_from-streak rs (count + 1) at)

pub walk_streak-eq :
    (rows : List ClosedTradeRow) → walk_streak rows ≡ (streak rows, fresh_loss rows)
unfolding walk_streak streak fresh_loss
walk_streak-eq [] = refl
walk_streak-eq (r ∷ rs) = ground (arith, walk_from-streak rs (0 + 1) r.closed_at)

streak-take : (n : ℕ) (rows : List ClosedTradeRow) → streak (take n rows) ≡ min n (streak rows)
unfolding streak
streak-take zero rows = omega arith
streak-take (suc n) [] = omega arith
streak-take (suc n) (r ∷ rs) = ground (arith, streak-take n rs)

fresh_loss-take :
    (n : ℕ) (rows : List ClosedTradeRow) → 0 < n → fresh_loss (take n rows) ≡ fresh_loss rows
unfolding fresh_loss
fresh_loss-take zero rows h = absurd (omega arith)
fresh_loss-take (suc n) [] h = refl
fresh_loss-take (suc n) (r ∷ rs) h = refl

-- Two decisions that block alike, whatever losses they report.
pub record SameVerdict (a b : CooldownDecision) : Type 0 where
  pub active : a.active ≡ b.active
  pub reason : a.reason ≡ b.reason
  pub cooldown_until : a.cooldown_until ≡ b.cooldown_until

and_cong : (b x y : Bool) → (b ≡ true → x ≡ y) → (b && x) ≡ (b && y)
and_cong true x y h = h refl
and_cong false x y h = refl

combine-SameVerdict :
    (l s : Option ℕ) (m n last : ℕ) → SameVerdict (combine l s m last) (combine l s n last)
unfolding combine
combine-SameVerdict (some l) (some s) m n last = ground arith
combine-SameVerdict (some l) none m n last = ground arith
combine-SameVerdict none (some s) m n last = ground arith
combine-SameVerdict none none m n last = ground arith

build_decision-SameVerdict :
    (now : ℕ) (risk : RiskSection) (m n : ℕ) (last : Option ℕ)
    → (streak_enabled risk ≡ true
        → leb risk.cooldown_after_streak_n_losses m ≡ leb risk.cooldown_after_streak_n_losses n)
    → SameVerdict (build_decision now risk m last) (build_decision now risk n last)
unfolding build_decision
build_decision-SameVerdict now risk m n none h = ground arith
build_decision-SameVerdict now risk m n (some at) h =
    subst
      (λ b. SameVerdict (build_decision now risk m (some at)) (
        combine (deadline (loss_enabled risk) now at risk.cooldown_after_loss_minutes)
          (deadline b now at risk.cooldown_after_streak_n_losses_minutes) n at))
      (and_cong (streak_enabled risk) _ _ h) (combine-SameVerdict _ _ m n at)

limit_covers :
    (risk : RiskSection) (n : ℕ)
    → streak_enabled risk ≡ true
    → leb risk.cooldown_after_streak_n_losses (min (compute_limit risk) n)
      ≡ leb risk.cooldown_after_streak_n_losses n
unfolding compute_limit
limit_covers risk n h = ground arith

disabled-SameVerdict :
    (now : ℕ) (risk : RiskSection) (n : ℕ) (last : Option ℕ)
    → compute_limit risk ≡ 0
    → SameVerdict inactive (build_decision now risk n last)
unfolding build_decision compute_limit deadline combine
disabled-SameVerdict now risk n none h = ground arith
disabled-SameVerdict now risk n (some at) h = ground arith

-- Reading the newest `compute_limit` closed trades blocks a signal exactly as reading all of them
-- does: with the same verdict, reason and deadline.
pub check_cooldown-window :
    (bot : ℕ) (table : List TradeRow) (now : ℕ) (risk : RiskSection)
    → SameVerdict (check_cooldown bot table now risk) (
        build_decision now risk
          (streak (closed_trades bot table))
          (fresh_loss (closed_trades bot table)))
unfolding check_cooldown decide select_recent_closed_trades
check_cooldown-window bot table now risk = elim (Bool-cases (compute_limit risk == 0)) [
  | inl off ↦ rw off (disabled-SameVerdict now risk _ _ (ground arith))
  | inr on ↦
      rw
        (
          on,
          walk_streak-eq,
          streak-take,
          fresh_loss-take (compute_limit risk) (closed_trades bot table) (ground arith),
        )
        (build_decision-SameVerdict now risk _ _ _ (limit_covers risk _))
]

-- The two ways to be in a cooldown after a loss at `at` that ends a streak of `count`.
abbrev pub Binds : ℕ → RiskSection → ℕ → ℕ → Type 0
Binds now risk count at =
    ((0 < risk.cooldown_after_loss_minutes)
      × (now < at + risk.cooldown_after_loss_minutes * minute))
    ⊎ ((0 < risk.cooldown_after_streak_n_losses)
        × (0 < risk.cooldown_after_streak_n_losses_minutes)
        × (risk.cooldown_after_streak_n_losses ≤ count)
        × (now < at + risk.cooldown_after_streak_n_losses_minutes * minute))

active-Binds :
    (now : ℕ) (risk : RiskSection) (count : ℕ) (at : ℕ)
    → (build_decision now risk count (some at)).active ≡ true
    → Binds now risk count at
unfolding build_decision deadline combine
active-Binds now risk count at h = ground arith

Binds-active :
    (now : ℕ) (risk : RiskSection) (count : ℕ) (at : ℕ)
    → Binds now risk count at
    → (build_decision now risk count (some at)).active ≡ true
unfolding build_decision deadline combine
Binds-active now risk count at h = ground arith

some_at :
    (now : ℕ) (risk : RiskSection) (count : ℕ) (last : Option ℕ)
    → (build_decision now risk count last).active ≡ true
    → (at : ℕ) × (last ≡ some at) × Binds now risk count at
unfolding build_decision
some_at now risk count none h = cc
some_at now risk count (some at) h = (at, refl, active-Binds now risk count at h)

at_some :
    (now : ℕ) (risk : RiskSection) (count : ℕ) (last : Option ℕ) (at : ℕ)
    → last ≡ some at
    → Binds now risk count at
    → (build_decision now risk count last).active ≡ true
at_some now risk count last at e h = rw e (Binds-active now risk count at h)

-- The gate blocks exactly if the newest closed trade of the bot is a loss and the cooldown after a
-- loss, or that after a streak which the losses up to it complete, lasts beyond now.
pub check_cooldown-active :
    (bot : ℕ) (table : List TradeRow) (now : ℕ) (risk : RiskSection)
    → ((check_cooldown bot table now risk).active ≡ true) ↔ (
        (at : ℕ) × (fresh_loss (closed_trades bot table) ≡ some at)
        × Binds now risk (streak (closed_trades bot table)) at)
check_cooldown-active bot table now risk =
    let same = (check_cooldown-window bot table now risk).active in
    (λ h. some_at now risk _ _ (sym same ∙ h), λ b. same ∙ at_some now risk _ _ b.0 b.1 b.2)
