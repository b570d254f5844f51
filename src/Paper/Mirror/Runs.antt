-- ===== src/Paper/Mirror/Runs.antt =====
-- The mirror over any sequence of calls and candles.
use scalper_v.Base.{List}
use scalper_v.Paper.Types.{Exchange}
use scalper_v.Paper.Candle.{cache}
use scalper_v.Paper.Stops.{cancel_order}
use scalper_v.Paper.Calls.{Call, after_all}
use scalper_v.Paper.Invariant.{Preserves}
use scalper_v.Paper.Invariant.Runs.{after_all-Inv}
use scalper_v.Paper.Mirror.{IsMirrored}
use scalper_v.Paper.Mirror.Commits.{
  commit_partial-IsMirrored, commit_close-IsMirrored, commit_manual-IsMirrored,
  commit_open-IsMirrored, commit_stops-IsMirrored,
}

Preserves-IsMirrored : Preserves IsMirrored
unfolding cache cancel_order
Preserves-IsMirrored = record {
  queued = λ fs x m. m;
  cached = λ c x m. m;
  cancelled = λ id x m. m;
  partial = commit_partial-IsMirrored;
  closed = λ f e p pnl x there held m. commit_close-IsMirrored f e p pnl x m;
  opened = λ k notional x flat m. commit_open-IsMirrored k notional x m;
  manual = λ k p pnl x held m. commit_manual-IsMirrored k p pnl x m;
  stopped = commit_stops-IsMirrored;
}

-- If for every symbol the open position in memory and its row in the positions table agree (there is
-- one exactly if there is the other, with the same trade, side and take profit flag, and in the row the
-- entry price, remaining quantity and stops of memory rounded to twelve decimals), they agree after any
-- sequence of market orders, stop requests, cancellations, live candles and replayed candles, whether
-- these succeed or raise.
pub after_all-IsMirrored :
    (cs : List Call) (x : Exchange) → IsMirrored x → IsMirrored (after_all cs x)
after_all-IsMirrored = after_all-Inv IsMirrored Preserves-IsMirrored
