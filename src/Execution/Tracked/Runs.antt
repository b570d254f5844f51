-- ===== src/Execution/Tracked/Runs.antt =====
-- services/execution/app: the handlers of requests, fills, missing stops and restarts in any order.
use scalper_v.Base.{ℕ, subst, ◌≡◌, refl, ◌∙◌, inl, inr, Bool, true, false, Option, none, some}
use scalper_v.Execution.{
  PositionStateRow, Tables, Reply, answer, fails, order_closed, Published, Desk, orders_event,
  trade_closed,
}
use scalper_v.Execution.Statements.{find_position, select_open_order_id_by_trade_id}
use scalper_v.Execution.Emergency.{
  CloseEnv, publish, persist_tracked, emergency_close_tracked_position, tracked_by_reply,
  tracked_by_order,
}
use scalper_v.Execution.Place.{
  Envelope, PlaceEnv, Outcome, sizing_fetch_failed, sizing_compute_failed, sub_lowest_tier,
  qty_invalid, instrument_failed, tp_unsatisfiable, leverage_failed, place_failed, fill_unresolved,
  paper_placed, emergency_closed, persist_failed, placed, crashed,
}
use scalper_v.Execution.Handler.{handle, params_of}
use scalper_v.Execution.Attribution.{ExecutionEvent, Tx, ok, halted}
use scalper_v.Execution.Dispatch.{DispatchEnv, Closed, emit_close, transact, process, processed}
use scalper_v.Execution.Restart.{close_orphan_db, with_open_order}
use scalper_v.Execution.Endings.{Fill, order_of, PlacedLive, Leaves, Flat}
use scalper_v.Execution.Endings.Walk.{handle-Leaves}
use scalper_v.Execution.Tracked.{IsTracked, Current}
use scalper_v.Execution.Tracked.Moves.{
  Tracks, persist_placement_tx-Tracks, persist_emergency-IsTracked, persist_tracked-IsTracked,
  persist_gone-IsTracked,
}
use scalper_v.Execution.Tracked.Fills.{Leads, Booked, transact-Booked}

IsTracked-by : (t t' : Tables) → t' ≡ t → IsTracked t → IsTracked t'
IsTracked-by t t' q h = rw q h

publish-tables : (b : Bool) (m : Published) (d : Desk) → (publish b m d).tables ≡ d.tables
publish-tables true m d = refl
publish-tables false m d = refl

module _ (env : PlaceEnv) (attempts bot : ℕ) (v : Envelope) (d d' : Desk)
    (h : IsTracked d.tables) where
  PlacedLive-IsTracked : PlacedLive env attempts bot v d d' → IsTracked d'.tables
  PlacedLive-IsTracked x =
      let f = order_of bot x.fill in
      rw x.tables (
        subst Tracks x.recorded (
          persist_placement_tx-Tracks f x.fill.targets (params_of v.request) env.sl_set_at d.tables
            (find_position f.bot_id f.symbol d.tables.position_state) refl h))

  Flat-IsTracked :
      (x : Fill env attempts v) → Flat env (order_of bot x) d.tables d'.tables → IsTracked d'.tables
  Flat-IsTracked x (inl q) = rw q h
  Flat-IsTracked x (inr (key, notional, r, q)) =
      rw q
        (persist_emergency-IsTracked (order_of bot x) key notional env.closes.close_at d.tables h)

  Leaves-IsTracked : (o : Outcome) → Leaves env attempts bot v d d' o → IsTracked d'.tables
  Leaves-IsTracked sizing_fetch_failed q = rw q h
  Leaves-IsTracked sizing_compute_failed q = rw q h
  Leaves-IsTracked sub_lowest_tier q = rw q h
  Leaves-IsTracked qty_invalid q = rw q h
  Leaves-IsTracked instrument_failed q = rw q h
  Leaves-IsTracked tp_unsatisfiable q = rw q h
  Leaves-IsTracked leverage_failed q = rw q h
  Leaves-IsTracked place_failed (c, p, q) = rw q h
  Leaves-IsTracked fill_unresolved (c, p, s, q) = rw q (rw (publish-tables env.publishes_dlq _ _) h)
  Leaves-IsTracked paper_placed x = rw x.tables h
  Leaves-IsTracked emergency_closed x = Flat-IsTracked x.fill x.tables
  Leaves-IsTracked persist_failed x = rw x.untouched.0 h
  Leaves-IsTracked placed x = PlacedLive-IsTracked x
  Leaves-IsTracked crashed q = rw q.0 h

handle-IsTracked :
    (env : PlaceEnv) (attempts bot : ℕ) (v : Envelope) (d : Desk)
    → IsTracked d.tables
    → IsTracked (handle env attempts bot v d).0.tables
handle-IsTracked env attempts bot v d h =
    Leaves-IsTracked env attempts bot v d (handle env attempts bot v d).0 h
      (handle env attempts bot v d).1 (handle-Leaves env attempts bot v d)

emit_close-tables :
    (env : DispatchEnv) (c : Closed) (d : Desk) → (emit_close env c d).tables ≡ d.tables
unfolding emit_close
emit_close-tables env none d = refl
emit_close-tables env (some (payload, k)) d =
    publish-tables env.publishes_trade (trade_closed payload.event.bot_id k)
      (publish env.publishes_closed (orders_event (order_closed payload)) d)
    ∙ publish-tables env.publishes_closed (orders_event (order_closed payload)) d

processed-IsTracked :
    (env : DispatchEnv) (d : Desk) (x : Tx (Tables × Closed))
    → Leads Booked x
    → IsTracked d.tables
    → IsTracked (processed env d x).0.tables
unfolding processed
processed-IsTracked env d (ok (t, c)) b h = rw (emit_close-tables env c (record d { tables = t })) b
processed-IsTracked env d (halted i) b h = h

process-IsTracked :
    (env : DispatchEnv) (bot : ℕ) (e : ExecutionEvent) (d : Desk)
    → IsTracked d.tables
    → IsTracked (process env bot e d).0.tables
unfolding process
process-IsTracked env bot e d h =
    processed-IsTracked env d (transact env bot e d.tables) (transact-Booked env bot e d.tables h) h

module _ (bot : ℕ) (row : PositionStateRow) where
  tracked_by_order-IsTracked :
      (env : CloseEnv) (d : Desk) (x : ℕ) (o : Option ℕ)
      → IsTracked d.tables
      → Current bot row.symbol row.trade_id d.tables
      → (c : Bool) → env.commits ≡ c
      → IsTracked (tracked_by_order env bot row x o d).0.tables
  unfolding tracked_by_order
  tracked_by_order-IsTracked env d x none h k c q = h
  tracked_by_order-IsTracked env d x (some o) h k false q = rw q h
  tracked_by_order-IsTracked env d x (some o) h k true q =
      let (t, flat) = persist_tracked bot row o x env.close_at d.tables in
      rw q (
        rw
          (publish-tables env.publishes_closed (orders_event (order_closed flat))
            (record d { tables = t }))
          (persist_tracked-IsTracked bot row o x env.close_at d.tables h k))

  tracked_by_reply-IsTracked :
      (env : CloseEnv) (d : Desk) (r : Reply ℕ)
      → IsTracked d.tables
      → Current bot row.symbol row.trade_id d.tables
      → IsTracked (tracked_by_reply env bot row r d).0.tables
  unfolding tracked_by_reply
  tracked_by_reply-IsTracked env d (answer x) h k =
      tracked_by_order-IsTracked env d x (select_open_order_id_by_trade_id row.trade_id d.tables) h
        k env.commits refl
  tracked_by_reply-IsTracked env d (fails e) h k = h

  emergency_close_tracked_position-IsTracked :
      (env : CloseEnv) (d : Desk)
      → IsTracked d.tables
      → Current bot row.symbol row.trade_id d.tables
      → IsTracked (emergency_close_tracked_position env bot row d).0.tables
  unfolding emergency_close_tracked_position
  emergency_close_tracked_position-IsTracked env d h k =
      tracked_by_reply-IsTracked env _ env.reply h k

  with_open_order-IsTracked :
      (at : ℕ) (o : Option ℕ) (t : Tables)
      → IsTracked t
      → Current bot row.symbol row.trade_id t
      → IsTracked (with_open_order bot row at o t)
  unfolding with_open_order
  with_open_order-IsTracked at none t h k = h
  with_open_order-IsTracked at (some o) t h k = persist_gone-IsTracked bot row o at t h k

  close_orphan_db-IsTracked :
      (at : ℕ) (t : Tables)
      → IsTracked t
      → Current bot row.symbol row.trade_id t
      → IsTracked (close_orphan_db bot row at t)
  unfolding close_orphan_db
  close_orphan_db-IsTracked at t h k =
      with_open_order-IsTracked at (select_open_order_id_by_trade_id row.trade_id t) t h k

-- What one handler, of any bot, makes of the desk. The watchdog and the restart work from a row that
-- they have read before.
pub data Step (d d' : Desk) : Type 0 where
  requests :
      (env : PlaceEnv) (attempts bot : ℕ) (v : Envelope)
      → d' ≡ (handle env attempts bot v d).0
      → Step d d'
  fills :
      (env : DispatchEnv) (bot : ℕ) (e : ExecutionEvent) → d' ≡ (process env bot e d).0 → Step d d'
  watches :
      (env : CloseEnv) (bot : ℕ) (row : PositionStateRow)
      → Current bot row.symbol row.trade_id d.tables
      → d' ≡ (emergency_close_tracked_position env bot row d).0
      → Step d d'
  restarts :
      (bot : ℕ) (row : PositionStateRow) (at : ℕ)
      → Current bot row.symbol row.trade_id d.tables
      → d' ≡ record d { tables = close_orphan_db bot row at d.tables }
      → Step d d'

-- Any number of handlers, one after the other.
pub data Steps (d : Desk) : Desk → Type 0 where
  stay : Steps d d
  and_next : (mid d' : Desk) → Steps d mid → Step mid d' → Steps d d'

Step-IsTracked : (d d' : Desk) → Step d d' → IsTracked d.tables → IsTracked d'.tables
Step-IsTracked d d' (requests env attempts bot v q) h =
    rw q (handle-IsTracked env attempts bot v d h)
Step-IsTracked d d' (fills env bot e q) h = rw q (process-IsTracked env bot e d h)
Step-IsTracked d d' (watches env bot row k q) h =
    rw q (emergency_close_tracked_position-IsTracked bot row env d h k)
Step-IsTracked d d' (restarts bot row at k q) h =
    rw q (close_orphan_db-IsTracked bot row at d.tables h k)

-- The handlers of all the bots, in any order and whatever the exchange answers, keep the open trades
-- and the rows of `position_state` the same: a trade is open exactly if the row of its bot and
-- symbol names it. The watchdog and the restart meet a row that still names the open trade of its bot and symbol,
-- or one of which neither the row nor the open trade is left.
pub Steps-IsTracked : (d d' : Desk) → Steps d d' → IsTracked d.tables → IsTracked d'.tables
Steps-IsTracked d _ stay h = h
Steps-IsTracked d _ (and_next mid d' run s) h =
    Step-IsTracked mid d' s (Steps-IsTracked d mid run h)
