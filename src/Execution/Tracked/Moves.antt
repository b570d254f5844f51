-- ===== src/Execution/Tracked/Moves.antt =====
-- services/execution/app: the transactions that open and close trades keep the open trades and the
-- rows of `position_state` together.
use scalper_v.Base.{
  arith, ℕ, ◌+◌, ◌≤◌, ◌≡◌, refl, ◌∙◌, Option, none, some, List, [], ◌∷◌, ◌==◌, ◌&&◌, if◌then◌else◌,
}
use scalper_v.Base.Int.{pos}
use scalper_v.Decimal.{Decimal, int}
use scalper_v.Lifecycle.{FsmParams}
use scalper_v.Execution.{
  TradeLifecycleState, opened, closed, reconciled, emergency, reconcile_gone, Closing, TradeRow,
  PositionStateRow, Tables,
}
use scalper_v.Execution.Statements.{
  insert_order, new_trade, insert_trade, find_position, select_position_state,
  insert_position_state, insert_trading_event, update_trade, closed_with, update_trade_close,
  in_state, update_trade_lifecycle_state, without_position, delete_position_state,
}
use scalper_v.Execution.Emergency.{Filled, persist_emergency, emergency_closing, persist_tracked}
use scalper_v.Execution.Handler.{Priced, Recorded, with_events, persist_placement_tx}
use scalper_v.Execution.Restart.{persist_gone}
use scalper_v.Execution.Tracked.{
  trade_at, open_at, Unique, IsTracked, Current, Agree-open, Agree-close, trade_at-without,
  Unique-without, open_at-close, open_at-update, Leaves, place_if_open,
}

-- A step that leaves alone what is read here.
pub IsTracked-same :
    (t t' : Tables)
    → IsTracked t
    → ((b s : ℕ) → trade_at b s t'.position_state ≡ trade_at b s t.position_state)
    → ((j : ℕ) → open_at j t'.trades ≡ open_at j t.trades)
    → t.next_trade ≤ t'.next_trade
    → Unique t'.position_state
    → IsTracked t'
IsTracked-same t t' h p q le u = record {
  agree = λ b s id. rw (p b s, q id) (h.agree b s id);
  below = λ id l. q id ∙ h.below id (omega arith);
  unique = u;
}

pub IsTracked-open :
    (t t' : Tables) (b0 s0 : ℕ)
    → IsTracked t
    → trade_at b0 s0 t.position_state ≡ none
    → ((b s : ℕ)
        → trade_at b s t'.position_state
          ≡ (if (b0 == b) && (s0 == s) then some t.next_trade else trade_at b s t.position_state))
    → ((j : ℕ)
        → open_at j t'.trades ≡ (if t.next_trade == j then some (b0, s0) else open_at j t.trades))
    → t'.next_trade ≡ t.next_trade + 1
    → Unique t'.position_state
    → IsTracked t'
IsTracked-open t t' b0 s0 h free p q n u = record {
  agree = λ b s id.
      rw (p b s, q id)
        (Agree-open (λ b s. trade_at b s t.position_state) (λ id. open_at id t.trades) h.agree b0 s0
          t.next_trade free (h.below t.next_trade (omega arith)) b s id);
  below = λ id l. ground (arith, q id, h.below id, n);
  unique = u;
}

pub IsTracked-close :
    (t t' : Tables) (b0 s0 k : ℕ)
    → IsTracked t
    → Current b0 s0 k t
    → ((b s : ℕ)
        → trade_at b s t'.position_state
          ≡ (if (b == b0) && (s == s0) then none else trade_at b s t.position_state))
    → ((j : ℕ) → open_at j t'.trades ≡ (if j == k then none else open_at j t.trades))
    → t'.next_trade ≡ t.next_trade
    → Unique t'.position_state
    → IsTracked t'
IsTracked-close t t' b0 s0 k h c p q n u = record {
  agree = λ b s id.
      rw (p b s, q id)
        (Agree-close (λ b s. trade_at b s t.position_state) (λ id. open_at id t.trades) h.agree b0
          s0 k c b s id);
  below = λ id l. ground (arith, q id, h.below id, n);
  unique = u;
}

-- The trade is closed, set to a state, and its position is deleted.
pub close_and_delete :
    (t t' : Tables) (b0 s0 k : ℕ) (c : Closing) (fees : Option Decimal) (f : TradeRow → TradeRow)
    → Leaves f
    → IsTracked t
    → Current b0 s0 k t
    → t'.trades ≡ update_trade k f (update_trade k (closed_with c fees) t.trades)
    → t'.position_state ≡ without_position b0 s0 t.position_state
    → t'.next_trade ≡ t.next_trade
    → IsTracked t'
close_and_delete t t' b0 s0 k c fees f l h cur ts ps n =
    IsTracked-close t t' b0 s0 k h cur (λ b s. rw ps (trade_at-without b s b0 s0 t.position_state))
      (λ j. rw ts (
        open_at-update j k f l (update_trade k (closed_with c fees) t.trades)
        ∙ open_at-close j k c fees t.trades))
      n (rw ps (Unique-without b0 s0 t.position_state h.unique))

pub in_state-Leaves : (state : TradeLifecycleState) → Leaves (in_state state)
in_state-Leaves state r = (refl, refl, refl, refl)

pub persist_tracked-IsTracked :
    (b : ℕ) (row : PositionStateRow) (order x at : ℕ) (t : Tables)
    → IsTracked t
    → Current b row.symbol row.trade_id t
    → IsTracked (persist_tracked b row order x at t).0
unfolding persist_tracked update_trade_close update_trade_lifecycle_state delete_position_state
    insert_trading_event
persist_tracked-IsTracked b row order x at t h cur =
    close_and_delete t (persist_tracked b row order x at t).0 b row.symbol row.trade_id
      (record {
        exit_price = int (pos 0);
        realized_pnl = int (pos 0);
        closed_at = at;
        close_reason = emergency;
        close_order_id = order;
      })
      none (in_state closed) (in_state-Leaves closed) h cur refl refl refl

pub persist_gone-IsTracked :
    (b : ℕ) (row : PositionStateRow) (order at : ℕ) (t : Tables)
    → IsTracked t
    → Current b row.symbol row.trade_id t
    → IsTracked (persist_gone b row order at t)
unfolding persist_gone update_trade_close update_trade_lifecycle_state delete_position_state
persist_gone-IsTracked b row order at t h cur =
    close_and_delete t (persist_gone b row order at t) b row.symbol row.trade_id
      (record {
        exit_price = int (pos 0);
        realized_pnl = int (pos 0);
        closed_at = at;
        close_reason = reconcile_gone;
        close_order_id = order;
      })
      none (in_state reconciled) (in_state-Leaves reconciled) h cur refl refl refl

-- A trade that is opened and closed at once is not open, as its key was not before.
none_twice :
    (n j : ℕ) (x y : Option (ℕ × ℕ))
    → (n ≤ j → y ≡ none)
    → (if j == n then none else (if n == j then x else y)) ≡ y
none_twice n j x y h = ground (arith, h)

pub persist_emergency-IsTracked :
    (f : Filled) (x : ℕ) (notional : Decimal) (at : ℕ) (t : Tables)
    → IsTracked t
    → IsTracked (persist_emergency f x notional at t).0
unfolding persist_emergency insert_order insert_trade update_trade_lifecycle_state
    update_trade_close insert_trading_event open_at
persist_emergency-IsTracked f x notional at t h =
    let n = t.next_trade in
    let o = t.next_order + 1 in
    let c = emergency_closing f at o in
    let row =
      new_trade n f.bot_id f.signal_id t.next_order f.symbol f.side f.fill_price f.qty notional
        f.placed_at none in
    let ts1 = update_trade n (in_state opened) (row ∷ t.trades) in
    let ts2 = update_trade n (closed_with c (some (int (pos 0)))) ts1 in
    IsTracked-same t (persist_emergency f x notional at t).0 h (λ b s. refl)
      (λ j.
        open_at-update j n (in_state closed) (in_state-Leaves closed) ts2
        ∙ open_at-close j n c (some (int (pos 0))) ts1
        ∙ rw (open_at-update j n (in_state opened) (in_state-Leaves opened) (row ∷ t.trades))
            (none_twice n j (some (f.bot_id, f.symbol)) (open_at j t.trades) (h.below j)))
      (omega arith) h.unique

trade_at-find :
    (b s : ℕ) (rs : List PositionStateRow) → find_position b s rs ≡ none → trade_at b s rs ≡ none
unfolding trade_at find_position
trade_at-find b s [] h = refl
trade_at-find b s (r ∷ rs) h = ground (arith, trade_at-find b s rs)

-- The rows of the placement's own trade and position come first.
placement-IsTracked :
    (t t' : Tables) (row : TradeRow) (p : PositionStateRow)
    → IsTracked t
    → find_position p.bot_id p.symbol t.position_state ≡ none
    → t'.trades ≡ update_trade t.next_trade (in_state opened) (row ∷ t.trades)
    → t'.position_state ≡ p ∷ t.position_state
    → t'.next_trade ≡ t.next_trade + 1
    → row.id ≡ t.next_trade
    → place_if_open row.closing row.bot_id row.symbol ≡ some (p.bot_id, p.symbol)
    → p.trade_id ≡ t.next_trade
    → IsTracked t'
unfolding open_at trade_at Unique
placement-IsTracked t t' row p h free ts ps n i o k =
    let unheld = trade_at-find p.bot_id p.symbol t.position_state free in
    IsTracked-open t t' p.bot_id p.symbol h unheld (λ b s. rw ps (rw k refl))
      (λ j. rw ts (
        open_at-update j t.next_trade (in_state opened) (in_state-Leaves opened) (row ∷ t.trades)
        ∙ rw (i, o) refl))
      n (rw ps (unheld, h.unique))

-- If there is a record, its tables are tracked.
abbrev pub Tracks : Option Recorded → Type 0
Tracks none = Unit
Tracks (some w) = IsTracked w.tables

pub persist_placement_tx-Tracks :
    (f : Filled) (p : Priced) (params : FsmParams) (at : ℕ) (t : Tables)
    → (o : Option PositionStateRow) → find_position f.bot_id f.symbol t.position_state ≡ o
    → IsTracked t
    → Tracks (persist_placement_tx f p params at t)
unfolding persist_placement_tx insert_order insert_trade update_trade_lifecycle_state
    insert_position_state select_position_state insert_trading_event with_events
persist_placement_tx-Tracks f p params at t (some row) q h = rw q tt
persist_placement_tx-Tracks f p params at t none q h = rw q (
    placement-IsTracked t _
      (new_trade t.next_trade f.bot_id f.signal_id t.next_order f.symbol f.side f.fill_price f.qty
        p.notional_usd f.placed_at (some params))
      _ h q refl refl refl refl refl refl)
