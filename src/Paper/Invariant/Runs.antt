-- ===== src/Paper/Invariant/Runs.antt =====
-- Orders, stops and any sequence of calls keep every invariant that the commits keep.
use scalper_v.Base.{
  ℕ, ◌≡◌, Bool, true, false, Option, none, some, List, [], ◌∷◌, Option-cases, inl, inr,
}
use scalper_v.Domain.{Side}
use scalper_v.Decimal.{Decimal, ◌*ᵈ◌}
use scalper_v.Decimal.Division.{quantize}
use scalper_v.Paper.Price.{compute_realized_pnl}
use scalper_v.Paper.Types.{protective, be, trail, OpenPart, Exchange, Result, ok, err, Error}
use scalper_v.Paper.Orders.{
  Ticket, commit_open, commit_manual, opened_of, place_market_order, priced, route, ticket,
  persist_open, persist_close,
}
use scalper_v.Paper.Stops.{StopRequest, commit_stops, set_trading_stop}
use scalper_v.Base.{refl}
use scalper_v.Paper.Invariant.{Preserves, Keeps, PlacedKeeps}
use scalper_v.Paper.Calls.{
  Call, order, stop, cancel, candle, replayed, placed_in, set_in, after, after_all,
}
use scalper_v.Paper.Invariant.Candles.{on_candle-Stays, replay-Stays}

module _ (Inv : Exchange → Type 0) (laws : Preserves Inv) where
  open-Keeps :
      (k : Ticket) (o : Option OpenPart) (x : Exchange)
      → opened_of (x.active k.symbol) ≡ o
      → PlacedKeeps Inv x (persist_open k o x)
  unfolding persist_open
  open-Keeps k (some p) x is = tt
  open-Keeps k none x is =
      elim (quantize (k.qty *ᵈ k.price) 4)
        as (λ o. PlacedKeeps Inv x (elim o [
          | none ↦ err Error.invalid_operation
          | some notional ↦ let (trade, x') = commit_open k notional x in ok (some trade, x')
        ])) [ none ↦ tt | some notional ↦ laws.opened k notional x is ]

  close-Keeps :
      (k : Ticket) (o : Option OpenPart) (x : Exchange)
      → opened_of (x.active k.symbol) ≡ o
      → PlacedKeeps Inv x (persist_close k o x)
  unfolding persist_close
  close-Keeps k none x is = tt
  close-Keeps k (some p) x is =
      elim (compute_realized_pnl p.side p.entry_price k.price p.qty p.entry_fee k.fee)
        as (λ o. PlacedKeeps Inv x (elim o [
          | none ↦ err Error.invalid_operation
          | some pnl ↦ ok (none, commit_manual k p pnl x)
        ])) [ none ↦ tt | some pnl ↦ laws.manual k p pnl x is ]

  route-Keeps :
      (reduce_only : Bool) (k : Ticket) (x : Exchange) → PlacedKeeps Inv x (route reduce_only k x)
  unfolding route
  route-Keeps true k x = close-Keeps k (opened_of (x.active k.symbol)) x refl
  route-Keeps false k x = open-Keeps k (opened_of (x.active k.symbol)) x refl

  pub order-Keeps :
      (symbol : ℕ) (side : Side) (qty : Decimal) (reduce_only : Bool) (now : ℕ) (x : Exchange)
      → PlacedKeeps Inv x (place_market_order symbol side qty reduce_only now x)
  unfolding place_market_order priced
  order-Keeps symbol side qty reduce_only now x = elim (Option-cases (x.last_price symbol)) [
    | inl unpriced ↦ rw unpriced tt
    | inr (last, known) ↦ elim (Option-cases (x.last_candle symbol)) [
      | inl gone ↦ rw (known, gone) tt
      | inr (c, there) ↦
          rw (known, there) (route-Keeps reduce_only (ticket x symbol side qty now last c) x)
    ]
  ]

  pub stop-Keeps :
      (symbol : ℕ) (r : StopRequest) (now : ℕ) (x : Exchange)
      → Keeps Inv x (set_trading_stop symbol r now x)
  unfolding set_trading_stop
  stop-Keeps symbol r now x =
      elim r.sl_type
        as (λ o. Keeps Inv x (elim o [
          | none ↦ ok (commit_stops symbol r now x)
          | some t ↦ elim t [
            | trail ↦ err Error.trail_not_settable
            | protective ↦ ok (commit_stops symbol r now x)
            | be ↦ ok (commit_stops symbol r now x)
          ]
        ])) [
          | none ↦ laws.stopped symbol r now x
          | some protective ↦ laws.stopped symbol r now x
          | some be ↦ laws.stopped symbol r now x
          | some trail ↦ tt
        ]

  placed_in-Inv :
      (x : Exchange) (r : Result (Option ℕ × Exchange))
      → PlacedKeeps Inv x r
      → Inv x
      → Inv (placed_in x r)
  unfolding placed_in
  placed_in-Inv x (ok (trade, y)) keeps m = keeps m
  placed_in-Inv x (err e) keeps m = m

  set_in-Inv : (x : Exchange) (r : Result Exchange) → Keeps Inv x r → Inv x → Inv (set_in x r)
  unfolding set_in
  set_in-Inv x (ok y) keeps m = keeps m
  set_in-Inv x (err e) keeps m = m

  after-Inv : (c : Call) (x : Exchange) → Inv x → Inv (after c x)
  unfolding after
  after-Inv (order symbol side qty reduce_only now) x m =
      placed_in-Inv x (place_market_order symbol side qty reduce_only now x)
        (order-Keeps symbol side qty reduce_only now x) m
  after-Inv (stop symbol r now) x m =
      set_in-Inv x (set_trading_stop symbol r now x) (stop-Keeps symbol r now x) m
  after-Inv (cancel id) x m = laws.cancelled id x m
  after-Inv (candle c now) x m = on_candle-Stays Inv laws c now x m
  after-Inv (replayed c) x m = replay-Stays Inv laws c x m

  pub after_all-Inv : (cs : List Call) (x : Exchange) → Inv x → Inv (after_all cs x)
  unfolding after_all
  after_all-Inv [] x m = m
  after_all-Inv (c ∷ cs) x m = after_all-Inv cs (after c x) (after-Inv c x m)
