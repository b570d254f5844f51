-- ===== src/Risk/Latch.antt =====
-- The life of one bot's kill switch latch: any sequence of startups and of calls of the two gates,
-- over any trades.
use scalper_v.Base.{
  ℕ, ◌≡◌, refl, ◌∙◌, ap, Bool, true, false, Option, none, some, List, [], ◌∷◌, arith, All,
}
use scalper_v.Base.Int.{pos}
use scalper_v.Domain.{date, midnight}
use scalper_v.Decimal.{Decimal, int, fixed, ◌≤?◌}
use scalper_v.Risk.Trades.{RiskSection, TradeRow, sum_realized_pnl_since}
use scalper_v.Risk.KillSwitch.{
  daily_loss_limit, max_drawdown, KillSwitchState, KillSwitchTable, is_stale_daily_latch,
  upsert_kill_switch_trip, clear_kill_switch, reconcile_kill_switch_on_startup,
}
use scalper_v.Risk.LossLimit.{check_daily_loss_limit, recompute_loss}
use scalper_v.Risk.Drawdown.{DrawdownDecision, check_max_drawdown}

-- What touches the latch, each with the instant at which it does.
pub data Event : Type 0 where
  startup : Bool → Bool → ℕ → Event
  loss_gate : ℕ → List TradeRow → ℕ → RiskSection → Event
  drawdown_gate : ℕ → List TradeRow → ℕ → RiskSection → Event

abbrev pub instant : Event → ℕ
instant (startup reads clears now) = now
instant (loss_gate bot table now risk) = now
instant (drawdown_gate bot table now risk) = now

abbrev after_drawdown :
    KillSwitchTable → Option (KillSwitchTable × DrawdownDecision) → KillSwitchTable
after_drawdown latch none = latch
after_drawdown latch (some (latch', d)) = latch'

unfoldable pub step : Event → KillSwitchTable → KillSwitchTable
step (startup reads clears now) latch = (reconcile_kill_switch_on_startup reads clears now latch).0
step (loss_gate bot table now risk) latch = (check_daily_loss_limit bot table now risk latch).0
step (drawdown_gate bot table now risk) latch =
    after_drawdown latch (check_max_drawdown bot table now risk latch)

pub run : List Event → KillSwitchTable → KillSwitchTable
run [] latch = latch
run (e ∷ es) latch = run es (step e latch)

-- A latch that is tripped and not stale is left as it is by every event.
pub step-held :
    (e : Event) (s : KillSwitchState)
    → s.tripped ≡ true
    → is_stale_daily_latch s (instant e) ≡ false
    → step e (some s) ≡ some s
unfolding step reconcile_kill_switch_on_startup check_daily_loss_limit check_max_drawdown
step-held (startup false clears now) s t h = refl
step-held (startup true clears now) s t h = ground arith
step-held (loss_gate bot table now risk) s t h = ground arith
step-held (drawdown_gate bot table now risk) s t h = ground arith

run-held :
    (es : List Event) (s : KillSwitchState)
    → s.tripped ≡ true
    → All (λ e. is_stale_daily_latch s (instant e) ≡ false) es
    → run es (some s) ≡ some s
unfolding run
run-held [] s t h = refl
run-held (e ∷ es) s t h = ap (run es) (step-held e s t h.0) ∙ run-held es s t h.1

All-of {ℓ κ} : {A : Type ℓ} {P : A → Type κ} → ((a : A) → P a) → (xs : List A) → All P xs
All-of f [] = tt
All-of f (x ∷ xs) = (f x, All-of f xs)

pub drawdown_never_stale :
    (s : KillSwitchState) (now : ℕ)
    → s.trip_reason ≡ some max_drawdown
    → is_stale_daily_latch s now ≡ false
unfolding is_stale_daily_latch
drawdown_never_stale s now h = ground arith

-- A maximum drawdown latch is a hard stop: no sequence of startups and gate calls, at whatever
-- instants and over whatever trades, changes it.
pub run-hard_stop :
    (es : List Event) (s : KillSwitchState)
    → s.tripped ≡ true
    → s.trip_reason ≡ some max_drawdown
    → run es (some s) ≡ some s
run-hard_stop es s t h = run-held es s t (All-of (λ e. drawdown_never_stale s (instant e) h) es)

-- Staleness looks at the calendar day alone.
stale_by_date :
    (s : KillSwitchState) (m n : ℕ)
    → date m ≡ date n
    → is_stale_daily_latch s m ≡ is_stale_daily_latch s n
unfolding is_stale_daily_latch
stale_by_date s m n h = ground arith

-- A latch that is tripped and, at the instant given, not stale.
abbrev pub Holds : ℕ → KillSwitchTable → Type 0
Holds now none = ⊥
Holds now (some s) = (s.tripped ≡ true) × (is_stale_daily_latch s now ≡ false)

All-fresh :
    (s : KillSwitchState) (now : ℕ) (es : List Event)
    → is_stale_daily_latch s now ≡ false
    → All (λ e. date (instant e) ≡ date now) es
    → All (λ e. is_stale_daily_latch s (instant e) ≡ false) es
All-fresh s now [] h d = tt
All-fresh s now (e ∷ es) h d = (stale_by_date s (instant e) now d.0 ∙ h, All-fresh s now es h d.1)

-- A latch that holds goes through the day unchanged.
run_same_day :
    (es : List Event) (latch : KillSwitchTable) (now : ℕ)
    → Holds now latch
    → All (λ e. date (instant e) ≡ date now) es
    → run es latch ≡ latch
run_same_day es none now h d = absurd h
run_same_day es (some s) now h d = run-held es s h.0 (All-fresh s now es h.1 d)

Holds-by_date :
    (latch : KillSwitchTable) (m n : ℕ) → date n ≡ date m → Holds m latch → Holds n latch
Holds-by_date none m n d h = h
Holds-by_date (some s) m n d h = (h.0, stale_by_date s n m d ∙ h.1)

-- Whether the daily loss gate is on.
abbrev pub LimitEnabled : RiskSection → Type 0
LimitEnabled risk = (risk.daily_loss_limit_usd ≤? int (pos 0)) ≡ false

fresh_trip-Holds :
    (now : ℕ) (total : Decimal) (latch : KillSwitchTable)
    → Holds now (upsert_kill_switch_trip daily_loss_limit now (date now) total latch)
unfolding upsert_kill_switch_trip is_stale_daily_latch
fresh_trip-Holds now total latch = ground arith

recompute_loss-Holds :
    (bot : ℕ) (table : List TradeRow) (now : ℕ) (limit : Decimal) (latch : KillSwitchTable)
    → (recompute_loss bot table now limit latch).1.blocked ≡ true
    → Holds now (recompute_loss bot table now limit latch).0
unfolding recompute_loss
recompute_loss-Holds bot table now limit latch h =
    ground (
      arith,
      fresh_trip-Holds now (fixed (sum_realized_pnl_since bot (midnight now) table) 4) latch,
    )

-- The daily loss gate blocks only behind a latch that holds when it is done.
loss_gate-Holds :
    (bot : ℕ) (table : List TradeRow) (now : ℕ) (risk : RiskSection) (latch : KillSwitchTable)
    → (check_daily_loss_limit bot table now risk latch).1.blocked ≡ true
    → Holds now (check_daily_loss_limit bot table now risk latch).0
unfolding check_daily_loss_limit
loss_gate-Holds bot table now risk none h =
    ground (arith, recompute_loss-Holds bot table now risk.daily_loss_limit_usd none)
loss_gate-Holds bot table now risk (some s) h = ground (
  arith,
  recompute_loss-Holds bot table now risk.daily_loss_limit_usd (some s),
  recompute_loss-Holds bot table now risk.daily_loss_limit_usd (clear_kill_switch now (some s)),
)

-- A latch that holds blocks every call of the gate that is on.
Holds-loss_gate :
    (bot : ℕ) (table : List TradeRow) (now : ℕ) (risk : RiskSection) (latch : KillSwitchTable)
    → LimitEnabled risk
    → Holds now latch
    → (check_daily_loss_limit bot table now risk latch).1.blocked ≡ true
unfolding check_daily_loss_limit
Holds-loss_gate bot table now risk none on h = absurd h
Holds-loss_gate bot table now risk (some s) on h = ground arith

-- Once the daily loss gate has blocked a signal, it blocks for the rest of that UTC day, as long as its
-- limit is on: after any startups and gate calls of the day, and whatever the trades are by then.
pub loss_gate-sticky :
    (bot : ℕ) (table later_table : List TradeRow) (now later : ℕ) (risk later_risk : RiskSection)
    (latch : KillSwitchTable) (es : List Event)
    → (check_daily_loss_limit bot table now risk latch).1.blocked ≡ true
    → All (λ e. date (instant e) ≡ date now) es
    → date later ≡ date now
    → LimitEnabled later_risk
    → (check_daily_loss_limit bot later_table later later_risk
        (run es (check_daily_loss_limit bot table now risk latch).0)).1.blocked
      ≡ true
loss_gate-sticky bot table later_table now later risk later_risk latch es blocked same_day d on =
    let held = loss_gate-Holds bot table now risk latch blocked in
    rw (run_same_day es _ now held same_day)
      (Holds-loss_gate bot later_table later later_risk _ on (Holds-by_date _ now later d held))
