-- ===== src/Domain.antt =====
-- Values that the services share. Bots, symbols and sources are only compared, so they are numbers;
-- an instant is the number of microseconds since the epoch, in UTC.
use scalper_v.Base.{ℕ, ◌*◌, ◌/◌}

pub data Side : Type 0 where
  buy sell : Side

-- `Literal["live", "testnet", "paper", "demo"]`
pub data ExchangeMode : Type 0 where
  live testnet paper demo : ExchangeMode

-- `Literal["trades", "paper_trades"]`
pub data TradeTableName : Type 0 where
  trades paper_trades : TradeTableName

-- The table that every gate reads: live, testnet and demo bots share one.
abbrev pub table_of : ExchangeMode → TradeTableName
table_of paper = paper_trades
table_of live = trades
table_of testnet = trades
table_of demo = trades

abbrev pub minute : ℕ
minute = 60_000_000

abbrev pub day : ℕ
day = 86_400_000_000

-- `now.date()`
abbrev pub date : ℕ → ℕ
date now = now / day

-- `now.replace(hour=0, minute=0, second=0, microsecond=0)`
abbrev pub midnight : ℕ → ℕ
midnight now = now / day * day
