-- ===== src/Lib.antt =====
-- Verification of the trading core of scalper-v2, an automated trader of perpetual futures: signals
-- come in over a bus, the strategy engine filters and scores them, the execution service turns them
-- into positions and watches their stops, and a paper exchange stands in for a real one. Modelled are
-- the parts that decide over money: the gates before a trade, the size of a position, the placing,
-- booking and closing of orders, the monitor of an open trade, the simulated exchange, and the two
-- parts of the bus on which they rely, the ring of seen messages and the outbox.
--
-- The files, by the part of the repository that they model:
-- - Base: tests and lists over the native numbers, and integers. Domain: sides, modes of an exchange,
--   instants in microseconds. Decimal: `decimal.Decimal` in its default context (28 digits, half to
--   even), its division and quantization, the order of its values, and in Columns what a NUMERIC column
--   of the database keeps of a value, of which Places says when that is all.
-- - Risk: services/strategy_engine/app. Trades is packages/db/queries/trades.py; KillSwitch is
--   packages/db/queries/kill_switch.py with kill_switch_reconcile.py; Cooldown, Caps, OppositeSide,
--   LossLimit and Drawdown are the gates of the same names. A gate is a function of the tables, the
--   instant and the knobs (`RiskSection` of packages/scoring/types.py); the two kill switch gates
--   take the latch and return it. Latch runs startups and gates in any order, Verdicts says what
--   the kill switch gates decide, PeakQuery what the query of the drawdown gate returns,
--   Cooldown.Window why a bounded read of trades is enough.
-- - Engine: services/strategy_engine/app/consumer.py. Handler is `_handle`, with one function for each
--   stage, which calls the next; Publish is the publishers; a `Desk` is what a call changes (latch,
--   evaluations, messages, counters) and an `Env` what it meets. View, Audit, Halt and Orders
--   are about all the ways in which a call can end.
-- - Sizing: packages/sizing/compute.py. Quantize: packages/exchange/quantize.py.
-- - Paper: packages/exchange/paper. Price is fees.py, slippage.py, intra_candle.py and
--   `_compute_realized_pnl`; Tables is persistence.py; Fill, Orders, Stops, Candle and Restart are
--   the methods of `PaperExchange` in adapter.py, over the state of Types. Each method that
--   commits has its commit as a function of its own (`commit_open`, `commit_close`), and one that can
--   raise returns a `Result`; a candle that raises midway leaves what it had committed. Calls is the
--   exchange between calls, and Invariant lifts what every commit keeps to any sequence of calls: it
--   serves Mirror (memory against positions) and Ledger (memory against trades). Crossing and Replay
--   are about single candles.
-- - Lifecycle: services/execution/app/lifecycle.py with its statements of
--   packages/db/queries/execution.py. Moves is the helpers, Tick the loop. A tick takes what it meets
--   outside as input, also whether the exchange had set a stop when `set_trading_stop` raised.
-- - Execution: services/execution/app, but for shadow variants. Its file has the rows, messages and replies of
--   the adapter, Statements is packages/db/queries/execution.py; Prices
--   and Emergency are placement_persist.py; Place is what `_handle` of placement.py settles before
--   the trade, Handler the rest of it with `persist_placement_tx`; Attribution and Dispatch are
--   dispatcher.py and reconcile.py, Watchdog sl_watchdog.py, Restart restart.py. A `Desk` is what the service leaves
--   (tables, calls of the exchange, messages, monitors); the replies of the adapter and whether a
--   transaction commits or a publish succeeds are inputs (`PlaceEnv`, `CloseEnv`, `DispatchEnv`), and
--   an exception that leaves a handler is an outcome. Tracked follows the open trades and the rows
--   of `position_state` through all of them, Endings a request by its outcome, Halts the fill of an
--   emergency close, Streaks the counters of the watchdog.
-- - Dedup: packages/bus/dedup.py, on which Execution's Dispatch stands. Outbox: packages/outbox, the
--   statements of queries.py and the batch and the loop of relay.py; Pending is about the choice of a
--   batch, Delivered about the marks of the rows, Rank about the end of the loop.
-- - Scoring: packages/scoring. The conditions of base.py, simple.py and composite.py, with Negation
--   and Comparison on them, and in Series those of series.py; Resolver is what resolver.py decides about a feature, Evaluator the loop
--   of evaluator.py over the rules, on the floats of Float. Loop, Executed and Completed are about
--   what one rule leaves, what a result says, and when there is one.
--
-- Engine calls Risk through the functions of the gates, and carries the specification of Sizing in
-- its orders; Execution takes those orders, sizes them by Sizing and Quantize and books what the
-- exchange reports; Lifecycle calls Quantize; all stand on Decimal.
--
-- Bounds. Loops are structural: over the rows of a table, the fills of a queue, the ticks of a
-- monitor, the calls of an exchange. The count of the digits of a coefficient runs on fuel,
-- the coefficient itself, which is no less than the number of its digits; the bits of a float's
-- coefficient are counted the same way. The relay of the outbox has no bound in the source, so that
-- its loop up to the next sleep has fuel, and the attempts that the rows have left are enough of it;
-- the polls of a fill price have the bound of the source. Instants and identifiers are natural
-- numbers; amounts in a table of the gates are integers in units of 0.0001, those of Execution,
-- Lifecycle and Paper are decimals that are rounded to the scale of their column. That a value has more
-- digits before the point than its column, which raises, is left out.
--
-- Not modelled: plugin conditions, which are functions of the context of a rule; features
-- and indicators, shadow variants, analytics and reports, which are left for later; the handler of
-- signals takes the scoring as a function of its environment. Clients of exchanges, bus and database,
-- logs, metrics, waits and configuration are input and output. A failure of the database within a
-- call is modelled only where the source catches it or as a transaction that does not commit. A key
-- that a transaction of Execution drew and lost is drawn again. Infinite decimals and the sign of
-- zero are left out.
pub mod Base
pub mod Decimal
pub mod Domain
pub mod Risk
pub mod Paper
pub mod Scoring
pub mod Sizing
pub mod Quantize
pub mod Lifecycle
pub mod Engine
pub mod Dedup
pub mod Outbox
pub mod Execution
