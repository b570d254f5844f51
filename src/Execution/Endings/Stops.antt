-- ===== src/Execution/Endings/Stops.antt =====
-- services/execution/app/placement.py: the stages from the stop loss on, each with the ending that it
-- leads to.
use scalper_v.Base.{
  ℕ, ◌∷◌, ◌≡◌, refl, ap, inl, inr, Bool, true, false, Option, none, some, if◌then◌else◌,
}
use scalper_v.Domain.{paper}
use scalper_v.Decimal.{Decimal}
use scalper_v.Execution.{
  Reply, answer, fails, market_order, ExchangeError, rate_limit_error, auth_error, order_rejected,
  network_timeout, unknown_state, other_error, Desk, orders_event, order_placed, order_closed,
  sl_moved,
}
use scalper_v.Execution.Prices.{opposite_side, compute_notional_usd}
use scalper_v.Execution.Emergency.{
  call, publish, persist_emergency, emergency_close, closed_by_reply, after_close,
}
use scalper_v.Execution.Place.{Envelope, PlaceEnv, Outcome, paper_placed, persist_failed, placed}
use scalper_v.Execution.Handler.{
  Priced, Recorded, persist_placement_tx, params_of, after_commit, committed, record_placement,
  after_take_profit, of_ended, after_stop_loss, paper_shadow, paper_take_profit, paper_stop_loss,
}
use scalper_v.Execution.Endings.{Ends, stopped, protected, Fill, order_of, Flattened}
use scalper_v.Execution.Endings.Silent.{
  Silent, publish-Silent, Silent-trans, start_shadow-Silent, messages-Silent,
}

-- The reduce-only order of an emergency close.
abbrev closing : Envelope → Decimal → Priced → Desk → Desk
closing v q p d =
    call (market_order v.request.symbol (opposite_side v.request.side) q true) (stopped v q p d)

module _ (env : PlaceEnv) (attempts bot : ℕ) (v : Envelope) (d : Desk) where
  if-Ends :
      (c : Bool) (x y : Desk × Outcome)
      → Ends env attempts bot v d x
      → Ends env attempts bot v d y
      → Ends env attempts bot v d (if c then x else y)
  if-Ends true x y h i = h
  if-Ends false x y h i = i

  committed-Ends :
      (x : Fill env attempts v)
      → env.sets_sl ≡ answer tt
      → (o : Option Recorded)
      → persist_placement_tx (order_of bot x) x.targets (params_of v.request) env.sl_set_at d.tables
        ≡ o
      → Ends env attempts bot v d
          (committed env v x.checked.qty o (protected v x.checked.qty x.targets d))
  unfolding committed after_commit Silent
  committed-Ends x s none q = record {
    fill = x;
    stop_set = s;
    untouched = (refl, refl, refl);
    calls = refl;
  }
  committed-Ends x s (some w) q =
      let d0 = record (protected v x.checked.qty x.targets d) { tables = w.tables } in
      let silent =
        messages-Silent env.publishes_placed env.publishes_moved env.publishes_shadow v
          (orders_event (order_placed w.order_placed_payload))
          (orders_event (sl_moved w.sl_moved_payload)) w.trade_id true x.checked.qty d0 in
      if-Ends env.commits
        (after_commit env v x.checked.qty w (protected v x.checked.qty x.targets d), placed)
        (protected v x.checked.qty x.targets d, persist_failed)
        (record {
          fill = x;
          stop_set = s;
          row = w;
          recorded = q;
          tables = silent.0;
          calls = silent.1;
          monitored = ap (λ l. w.trade_id ∷ l) silent.2;
        })
        (record { fill = x; stop_set = s; untouched = (refl, refl, refl); calls = refl })

  recorded-Ends :
      (x : Fill env attempts v)
      → env.sets_sl ≡ answer tt
      → Ends env attempts bot v d (
          record_placement env v (order_of bot x) x.targets (protected v x.checked.qty x.targets d))
  unfolding record_placement
  recorded-Ends x s =
      committed-Ends x s
        (persist_placement_tx (order_of bot x) x.targets (params_of v.request) env.sl_set_at
          d.tables)
        refl

  take_profit-Ends :
      (x : Fill env attempts v) (r : Reply (Unit {0}))
      → env.sets_sl ≡ answer tt
      → Ends env attempts bot v d (
          after_take_profit env v
            (order_of bot x)
            x.targets
            r
            (protected v x.checked.qty x.targets d))
  unfolding after_take_profit
  take_profit-Ends x (answer u) s = recorded-Ends x s
  take_profit-Ends x (fails rate_limit_error) s = recorded-Ends x s
  take_profit-Ends x (fails auth_error) s = recorded-Ends x s
  take_profit-Ends x (fails order_rejected) s = recorded-Ends x s
  take_profit-Ends x (fails network_timeout) s = recorded-Ends x s
  take_profit-Ends x (fails unknown_state) s = recorded-Ends x s
  take_profit-Ends x (fails other_error) s = (refl, refl, refl)

  if-Flattened :
      (c : Bool) (x y : Desk)
      → Flattened env attempts bot v d x
      → Flattened env attempts bot v d y
      → Flattened env attempts bot v d (if c then x else y)
  if-Flattened true x y h i = h
  if-Flattened false x y h i = i

  closed-Ends :
      (x : Fill env attempts v) (e : ExchangeError) (key : ℕ)
      → env.sets_sl ≡ fails e
      → env.closes.reply ≡ answer key
      → (n : Option Decimal)
      → Ends env attempts bot v d (
          of_ended
            (after_close env.closes (order_of bot x) key n (closing v x.checked.qty x.targets d)))
  unfolding after_close Silent
  closed-Ends x e key s r none = (refl, refl, refl)
  closed-Ends x e key s r (some notional) =
      let c = closing v x.checked.qty x.targets d in
      let (t, opens, flat) =
        persist_emergency (order_of bot x) key notional env.closes.close_at d.tables in
      let d1 =
        publish env.closes.publishes_placed (orders_event (order_placed opens))
          (record c { tables = t }) in
      let d2 = publish env.closes.publishes_closed (orders_event (order_closed flat)) d1 in
      let silent =
        Silent-trans (record c { tables = t }) d1 d2
          (publish-Silent env.closes.publishes_placed (orders_event (order_placed opens))
            (record c { tables = t }))
          (publish-Silent env.closes.publishes_closed (orders_event (order_closed flat)) d1) in
      if-Flattened env.closes.commits d2 c
        (record {
          fill = x;
          error = e;
          no_stop = s;
          tables = inr (key, notional, r, silent.0);
          calls = silent.1;
          monitors = silent.2;
        })
        (record {
          fill = x;
          error = e;
          no_stop = s;
          tables = inl refl;
          calls = refl;
          monitors = refl;
        })

  emergency-Ends :
      (x : Fill env attempts v) (e : ExchangeError)
      → env.sets_sl ≡ fails e
      → (r : Reply ℕ) → env.closes.reply ≡ r
      → Ends env attempts bot v d (
          of_ended
            (closed_by_reply env.closes (order_of bot x) r (closing v x.checked.qty x.targets d)))
  unfolding closed_by_reply
  emergency-Ends x e s (answer key) r =
      closed-Ends x e key s r (compute_notional_usd x.checked.qty x.price)
  emergency-Ends x e s (fails unknown_state) r = record {
    fill = x;
    error = e;
    no_stop = s;
    tables = inl refl;
    calls = refl;
    monitors = refl;
  }
  emergency-Ends x e s (fails rate_limit_error) r = (refl, refl, refl)
  emergency-Ends x e s (fails auth_error) r = (refl, refl, refl)
  emergency-Ends x e s (fails order_rejected) r = (refl, refl, refl)
  emergency-Ends x e s (fails network_timeout) r = (refl, refl, refl)
  emergency-Ends x e s (fails other_error) r = (refl, refl, refl)

  pub stop_loss-Ends :
      (x : Fill env attempts v) (r : Reply (Unit {0}))
      → env.sets_sl ≡ r
      → Ends env attempts bot v d
          (after_stop_loss env v (order_of bot x) x.targets r (stopped v x.checked.qty x.targets d))
  unfolding after_stop_loss emergency_close
  stop_loss-Ends x (answer u) s = take_profit-Ends x env.sets_tp s
  stop_loss-Ends x (fails rate_limit_error) s =
      emergency-Ends x rate_limit_error s env.closes.reply refl
  stop_loss-Ends x (fails auth_error) s = emergency-Ends x auth_error s env.closes.reply refl
  stop_loss-Ends x (fails order_rejected) s =
      emergency-Ends x order_rejected s env.closes.reply refl
  stop_loss-Ends x (fails network_timeout) s =
      emergency-Ends x network_timeout s env.closes.reply refl
  stop_loss-Ends x (fails unknown_state) s = emergency-Ends x unknown_state s env.closes.reply refl
  stop_loss-Ends x (fails other_error) s = (refl, refl, refl)

  paper_shadow-Ends :
      (x : Fill env attempts v)
      → v.request.mode ≡ paper
      → env.sets_sl ≡ answer tt
      → (k : Option ℕ)
      → Ends env attempts bot v d
          (paper_shadow env v x.checked.qty k (protected v x.checked.qty x.targets d), paper_placed)
  unfolding paper_shadow Silent
  paper_shadow-Ends x m s none = record {
    fill = x;
    mode = m;
    stop_set = s;
    tables = refl;
    calls = refl;
    monitors = refl;
  }
  paper_shadow-Ends x m s (some k) =
      let silent =
        start_shadow-Silent env.publishes_shadow v k false x.checked.qty
          (protected v x.checked.qty x.targets d) in
      record {
        fill = x;
        mode = m;
        stop_set = s;
        tables = silent.0;
        calls = silent.1;
        monitors = silent.2;
      }

  paper_profit-Ends :
      (x : Fill env attempts v) (r : Reply (Unit {0}))
      → v.request.mode ≡ paper
      → env.sets_sl ≡ answer tt
      → Ends env attempts bot v d (
          paper_take_profit env v x.checked.qty x.result.paper_trade_id r
            (protected v x.checked.qty x.targets d))
  unfolding paper_take_profit
  paper_profit-Ends x (answer u) m s = paper_shadow-Ends x m s x.result.paper_trade_id
  paper_profit-Ends x (fails e) m s = (refl, refl, refl)

  pub paper-Ends :
      (x : Fill env attempts v) (r : Reply (Unit {0}))
      → v.request.mode ≡ paper
      → env.sets_sl ≡ r
      → Ends env attempts bot v d (
          paper_stop_loss env v
            (order_of bot x)
            x.targets
            x.result.paper_trade_id
            r
            (stopped v x.checked.qty x.targets d))
  unfolding paper_stop_loss
  paper-Ends x (answer u) m s = paper_profit-Ends x env.sets_tp m s
  paper-Ends x (fails e) m s = (refl, refl, refl)
