-- ===== src/Execution/Tracked/Fills.antt =====
-- services/execution/app/dispatcher.py and reconcile.py: the booking of a fill keeps the open trades
-- and the rows of `position_state` together.
use scalper_v.Base.{
  arith, ℕ, ◌≡◌, refl, ◌∙◌, inl, Bool, true, false, Option, none, some, ◌==◌, if◌then◌else◌,
}
use scalper_v.Base.Int.{pos}
use scalper_v.Decimal.{Decimal, int, ◌=?◌, ◌-ᵈ◌}
use scalper_v.Lifecycle.{SlType}
use scalper_v.Execution.{
  open_fill, partial_tp_fill, sl_fill, trail_fill, close_fill, unknown_fill, partially_closed,
  closed, PositionStateRow, Tables, ExecType, ExecutionRow,
}
use scalper_v.Execution.Statements.{
  fill_positions, filled_by, insert_execution, update_position_state_after_fill, with_fee,
  update_trade_fees_incremental, update_trade_close, in_state, update_trade_lifecycle_state,
  delete_position_state, select_position_state, select_open_order_id_by_trade_id,
  select_order_meta_by_id, select_order_id_by_exchange_id,
}
use scalper_v.Execution.Attribution.{
  ExecutionEvent, Tx, ok, halted, ◌>>=◌, Attribution, check_overfill, order_for_insert,
  derive_exec_type,
}
use scalper_v.Execution.Dispatch.{
  DispatchEnv, Closed, is_open_fill, new_sl_type, reduce_position, one_row, reconcile_close, settle,
  by_remaining, book, transact, commit, closed_rows, close_order_of, meta_of, snapshot,
  close_reason_of,
}
use scalper_v.Execution.Tracked.{
  trade_at, IsTracked, trade_at-fill, filled-here, Unique-fill, open_at-update, Leaves,
}
use scalper_v.Execution.Tracked.Moves.{IsTracked-same, close_and_delete, in_state-Leaves}

-- If it does not raise, what it leaves has the property.
abbrev pub Leads {ℓ} : {A : Type ℓ} → (A → Type 0) → Tx A → Type 0
Leads P (ok a) = P a
Leads P (halted h) = Unit

Leads-bind {ℓ κ} :
    {A : Type ℓ} {B : Type κ} (P : B → Type 0) (x : Tx A) (f : A → Tx B)
    → ((a : A) → Leads P (f a))
    → Leads P (x >>= f)
Leads-bind P (ok a) f h = h a
Leads-bind P (halted i) f h = tt

Leads-then {ℓ κ} :
    {A : Type ℓ} {B : Type κ} (Q : A → Type 0) (P : B → Type 0) (x : Tx A) (f : A → Tx B)
    → Leads Q x
    → ((a : A) → Q a → Leads P (f a))
    → Leads P (x >>= f)
Leads-then Q P (ok a) f q h = h a q
Leads-then Q P (halted i) f q h = tt

abbrev pub Booked : Tables × Closed → Type 0
Booked r = IsTracked r.0

Leads-four {ℓ κ} :
    {A : Type ℓ} {B : Type κ} {C R : Type 0} (P : R → Type 0) (x : Tx A) (y : A → Tx B) (z w : Tx C)
    (g : A → B → C → C → R)
    → ((a : A) (b : B) (c d : C) → P (g a b c d))
    → Leads P (x >>= λ a. y a >>= λ b. z >>= λ c. w >>= λ d. ok (g a b c d))
Leads-four P x y z w g h =
    Leads-bind P x (λ a. y a >>= λ b. z >>= λ c. w >>= λ d. ok (g a b c d))
      (λ a.
        Leads-bind P (y a) (λ b. z >>= λ c. w >>= λ d. ok (g a b c d))
          (λ b.
            Leads-bind P z (λ c. w >>= λ d. ok (g a b c d))
              (λ c. Leads-bind P w (λ d. ok (g a b c d)) (h a b c))))

Leads-if {ℓ} :
    {A : Type ℓ} (P : A → Type 0) (c : Bool) (x y : Tx A)
    → Leads P x
    → Leads P y
    → Leads P (if c then x else y)
Leads-if P true x y h i = h
Leads-if P false x y h i = i

commit-Booked : (b : Bool) (r : Tables × Closed) → Booked r → Leads Booked (commit b r)
commit-Booked true r h = h
commit-Booked false r h = tt

-- What a fill that is not an opening one has met: the position of its trade.
abbrev Met : ℕ → ℕ → ExecType → ℕ → Tables → Type 0
Met b s kind k t =
    IsTracked t × (is_open_fill kind ≡ false → trade_at b s t.position_state ≡ some k)

filled_by-keys :
    (q : Decimal) (type : Option SlType) (at : ℕ) (r : PositionStateRow)
    → ((filled_by q type at r).bot_id ≡ r.bot_id)
      × ((filled_by q type at r).symbol ≡ r.symbol)
      × ((filled_by q type at r).trade_id ≡ r.trade_id)
unfolding filled_by
filled_by-keys q type at r = (refl, refl, refl)

module _ (b now : ℕ) (e : ExecutionEvent) (kind : ExecType) (k : ℕ) (t : Tables)
    (h : IsTracked t) where
  one_row-Met :
      (c : Bool)
      → ((fill_positions b e.symbol k (filled_by e.qty (new_sl_type kind) now) t.position_state).0
          == 0)
        ≡ c
      → Leads
          (Met b e.symbol kind k)
          (one_row (update_position_state_after_fill b e.symbol k e.qty (new_sl_type kind) now t))
  unfolding one_row update_position_state_after_fill
  one_row-Met true q = rw q tt
  one_row-Met false q =
      let f = filled_by e.qty (new_sl_type kind) now in
      let rows = t.position_state in
      let keys = filled_by-keys e.qty (new_sl_type kind) now in
      rw q (
        IsTracked-same t _ h (λ b' s. trade_at-fill b' s b e.symbol k f keys rows) (λ j. refl)
            (omega arith) (Unique-fill b e.symbol k f keys rows h.unique),
        λ kept.
            trade_at-fill b e.symbol b e.symbol k f keys rows
            ∙ filled-here b e.symbol k f rows h.unique (ground (arith, q)),
      )

reduce_position-Met :
    (b now : ℕ) (e : ExecutionEvent) (kind : ExecType) (k : ℕ) (t : Tables)
    → IsTracked t
    → Leads (Met b e.symbol kind k) (reduce_position b now e kind k t)
unfolding reduce_position
reduce_position-Met b now e open_fill k t h = (h, λ o. ground (arith, o))
reduce_position-Met b now e partial_tp_fill k t h = one_row-Met b now e partial_tp_fill k t h _ refl
reduce_position-Met b now e sl_fill k t h = one_row-Met b now e sl_fill k t h _ refl
reduce_position-Met b now e trail_fill k t h = one_row-Met b now e trail_fill k t h _ refl
reduce_position-Met b now e close_fill k t h = one_row-Met b now e close_fill k t h _ refl
reduce_position-Met b now e unknown_fill k t h = one_row-Met b now e unknown_fill k t h _ refl

closed_rows-Booked :
    (b : ℕ) (e : ExecutionEvent) (kind : ExecType) (k order x : ℕ) (pnl : Decimal) (t : Tables)
    → IsTracked t
    → trade_at b e.symbol t.position_state ≡ some k
    → Booked (closed_rows b e kind k order x pnl t)
unfolding closed_rows update_trade_close update_trade_lifecycle_state delete_position_state
closed_rows-Booked b e kind k order x pnl t h at =
    close_and_delete t _ b e.symbol k
      (record {
        exit_price = e.price;
        realized_pnl = pnl;
        closed_at = e.executed_at;
        close_reason = close_reason_of kind;
        close_order_id = order;
      })
      none (in_state closed) (in_state-Leaves closed) h (inl at) refl refl refl

reconcile_close-Booked :
    (env : DispatchEnv) (b : ℕ) (e : ExecutionEvent) (kind : ExecType) (k : ℕ) (order : Option ℕ)
    (t : Tables)
    → IsTracked t
    → trade_at b e.symbol t.position_state ≡ some k
    → Leads Booked (reconcile_close env b e kind k order t)
unfolding reconcile_close
reconcile_close-Booked env b e kind k order t h at =
    Leads-four Booked (close_order_of order (select_open_order_id_by_trade_id k t))
      (λ o. meta_of (select_order_meta_by_id o t)) (snapshot env.before) (snapshot env.after)
      (λ o m x y. closed_rows b e kind k o m.1 (y -ᵈ x) t)
      (λ o m x y. closed_rows-Booked b e kind k o m.1 (y -ᵈ x) t h at)

by_remaining-Booked :
    (env : DispatchEnv) (b : ℕ) (e : ExecutionEvent) (kind : ExecType) (k : ℕ) (order : Option ℕ)
    (ps : Option PositionStateRow) (t : Tables)
    → IsTracked t
    → trade_at b e.symbol t.position_state ≡ some k
    → Leads Booked (by_remaining env b e kind k order ps t)
unfolding by_remaining update_trade_lifecycle_state
by_remaining-Booked env b e kind k order none t h at = h
by_remaining-Booked env b e kind k order (some ps) t h at =
    Leads-if Booked (ps.remaining_qty =? int (pos 0)) _ _
      (reconcile_close-Booked env b e kind k order t h at)
      (IsTracked-same t _ h (λ b' s. refl)
        (λ j.
          open_at-update j k (in_state partially_closed) (in_state-Leaves partially_closed)
            t.trades)
        (omega arith) h.unique)

settle-Booked :
    (env : DispatchEnv) (b : ℕ) (e : ExecutionEvent) (kind : ExecType) (k : ℕ) (order : Option ℕ)
    (t : Tables) (c : Bool)
    → is_open_fill kind ≡ c
    → Met b e.symbol kind k t
    → Leads Booked (settle env b e kind k order t)
unfolding settle
settle-Booked env b e kind k order t true q (h, at) = rw q h
settle-Booked env b e kind k order t false q (h, at) =
    rw q (by_remaining-Booked env b e kind k order (select_position_state b e.symbol t) t h (at q))

with_fee-Leaves : (fee : Decimal) → Leaves (with_fee fee)
with_fee-Leaves fee r = (refl, refl, refl, refl)

book-Booked :
    (env : DispatchEnv) (b : ℕ) (e : ExecutionEvent) (order : Option ℕ) (a : Attribution) (o : ℕ)
    (t : Tables)
    → IsTracked t
    → Leads Booked (book env b e order a o t)
unfolding book insert_execution update_trade_fees_incremental
book-Booked env b e order (kind, none) o t h = tt
book-Booked env b e order (kind, some k) o t h =
    let row : ExecutionRow = record {
      exchange_exec_id = e.exchange_exec_id;
      order_id = o;
      trade_id = some k;
      bot_id = b;
      symbol = e.symbol;
      side = e.side;
      price = e.price;
      qty = e.qty;
      fee = e.fee;
      exec_type = kind;
      executed_at = e.executed_at;
    } in
    Leads-then (Met b e.symbol kind k) Booked
      (reduce_position b env.now e kind k (insert_execution row t))
      (λ t1. settle env b e kind k order (update_trade_fees_incremental k e.fee t1))
      (reduce_position-Met b env.now e kind k (insert_execution row t)
        (IsTracked-same t _ h (λ b' s. refl) (λ j. refl) (omega arith) h.unique))
      (λ t1 (h1, at). settle-Booked env b e kind k order _ (is_open_fill kind) refl (
        IsTracked-same t1 _ h1 (λ b' s. refl)
            (λ j. open_at-update j k (with_fee e.fee) (with_fee-Leaves e.fee) t1.trades)
            (omega arith) h1.unique,
        at,
      ))

pub transact-Booked :
    (env : DispatchEnv) (b : ℕ) (e : ExecutionEvent) (t : Tables)
    → IsTracked t
    → Leads Booked (transact env b e t)
unfolding transact
transact-Booked env b e t h =
    let order = select_order_id_by_exchange_id e.exchange_order_id t in
    let kind = derive_exec_type b e order t in
    Leads-bind Booked (check_overfill b e kind t)
      (λ u. do
        order_id ← order_for_insert order kind.1 t
        booked ← book env b e order kind order_id t
        commit env.commits booked)
      (λ u.
        Leads-bind Booked (order_for_insert order kind.1 t)
          (λ o. do booked ← book env b e order kind o t; commit env.commits booked)
          (λ o.
            Leads-then Booked Booked (book env b e order kind o t) (commit env.commits)
              (book-Booked env b e order kind o t h) (commit-Booked env.commits)))
