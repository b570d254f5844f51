-- ===== src/Execution/Restart.antt =====
-- services/execution/app/restart.py: what a start of the service does with the positions that the
-- exchange and the tables have.
use scalper_v.Base.{
  ℕ, ◌-◌, ◌*◌, Bool, true, false, Option, none, some, List, [], ◌∷◌, ◌==◌, ◌&&◌, if◌then◌else◌,
}
use scalper_v.Base.Int.{pos}
use scalper_v.Domain.{Side}
use scalper_v.Decimal.{int, ◌<?◌}
use scalper_v.Execution.{
  reconcile_gone, reconciled, Closing, PositionStateRow, Tables, Reply, answer, fails, market_order,
  Desk,
}
use scalper_v.Execution.Statements.{
  select_open_order_id_by_trade_id, update_trade_close, update_trade_lifecycle_state,
  delete_position_state, select_recent_open_trade_exists,
}
use scalper_v.Execution.Prices.{opposite_side}
use scalper_v.Execution.Emergency.{call}
use scalper_v.Execution.Watchdog.{Position, row_of}

-- The transaction of `_close_orphan_db`.
unfoldable pub persist_gone : ℕ → PositionStateRow → ℕ → ℕ → Tables → Tables
unfolding update_trade_close update_trade_lifecycle_state delete_position_state
persist_gone bot row open_id at t =
    let closing : Closing = record {
      exit_price = int (pos 0);
      realized_pnl = int (pos 0);
      closed_at = at;
      close_reason = reconcile_gone;
      close_order_id = open_id;
    } in
    delete_position_state bot row.symbol (
      update_trade_lifecycle_state row.trade_id reconciled
        (update_trade_close row.trade_id closing none t))

unfoldable pub with_open_order : ℕ → PositionStateRow → ℕ → Option ℕ → Tables → Tables
unfolding persist_gone
with_open_order bot row at none t = t
with_open_order bot row at (some open_id) t = persist_gone bot row open_id at t

unfoldable pub close_orphan_db : ℕ → PositionStateRow → ℕ → Tables → Tables
unfolding with_open_order select_open_order_id_by_trade_id
close_orphan_db bot row at t =
    with_open_order bot row at (select_open_order_id_by_trade_id row.trade_id t) t

-- Every exception of the order is caught, so that its reply makes no difference here.
orphan_side : ℕ → Position → Bool → Option Side → Desk → Desk
orphan_side bot p in_race none d = d
orphan_side bot p true (some side) d = d
orphan_side bot p false (some side) d =
    call (market_order p.symbol (opposite_side side) p.size true) d

unfoldable pub handle_orphan_exchange : ℕ → Position → ℕ → ℕ → Desk → Desk
unfolding orphan_side select_recent_open_trade_exists
handle_orphan_exchange bot p window now d =
    orphan_side bot p
      (select_recent_open_trade_exists bot p.symbol (now - window * 1_000_000) d.tables) p.side d

-- `{p.symbol: p for p in positions if p.size > 0}`, by its keys.
unfoldable pub held : ℕ → List Position → Bool
unfolding ◌<?◌
held symbol [] = false
held symbol (p ∷ ps) =
    let later = held symbol ps in
    if (p.symbol == symbol) && (int (pos 0) <? p.size) then true else later

unfoldable pub close_gone : ℕ → ℕ → List Position → List PositionStateRow → Tables → Tables
unfolding held close_orphan_db
close_gone bot now positions [] t = t
close_gone bot now positions (r ∷ rs) t =
    let t' =
      if (r.bot_id == bot) && (if held r.symbol positions then false else true)
      then close_orphan_db bot r now t
      else t in
    close_gone bot now positions rs t'

unfoldable pub close_unknown : ℕ → ℕ → ℕ → List PositionStateRow → List Position → Desk → Desk
unfolding row_of handle_orphan_exchange ◌<?◌
close_unknown bot window now rows [] d = d
close_unknown bot window now rows (p ∷ ps) d =
    let d' : Desk = elim (row_of bot p.symbol rows) [
      | some row ↦ d
      | none ↦ if int (pos 0) <? p.size then handle_orphan_exchange bot p window now d else d
    ] in
    close_unknown bot window now rows ps d'

unfoldable pub resume : ℕ → List Position → List PositionStateRow → Desk → Desk
unfolding held
resume bot positions [] d = d
resume bot positions (r ∷ rs) d =
    let d' =
      if (r.bot_id == bot) && held r.symbol positions
      then record d { monitors = r.trade_id ∷ d.monitors }
      else d in
    resume bot positions rs d'

-- One bot of `reconcile_on_startup`, over the rows that were read at its start. The positions have
-- one entry for each symbol.
unfoldable pub reconcile_bot : ℕ → ℕ → List PositionStateRow → ℕ → List Position → Desk → Desk
unfolding close_gone close_unknown resume
reconcile_bot window now rows bot positions d = resume bot positions rows (
    close_unknown bot window now rows positions
      (record d { tables = close_gone bot now positions rows d.tables }))

-- The bots in their order. The first whose positions cannot be read ends the start.
unfoldable pub reconcile_on_startup :
    ℕ → ℕ → List PositionStateRow → List (ℕ × Reply (List Position)) → Desk → Desk × Bool
unfolding reconcile_bot
reconcile_on_startup window now rows [] d = (d, true)
reconcile_on_startup window now rows ((bot, fails e) ∷ bots) d = (d, false)
reconcile_on_startup window now rows ((bot, answer positions) ∷ bots) d =
    reconcile_on_startup window now rows bots (reconcile_bot window now rows bot positions d)
