-- ===== src/Execution/Watchdog.antt =====
-- services/execution/app/sl_watchdog.py: one tick looks at the positions of the live bots, counts for
-- how many ticks on end a stop loss has been missing, and closes the position at the threshold.
use scalper_v.Base.{
  ℕ, ◌+◌, Bool, true, false, not, Option, none, some, List, [], ◌∷◌, ◌==◌, leb, ◌&&◌, ◌||◌,
  if◌then◌else◌,
}
use scalper_v.Base.Int.{pos}
use scalper_v.Domain.{Side}
use scalper_v.Decimal.{Decimal, int, ◌<?◌, ◌≤?◌}
use scalper_v.Execution.{PositionStateRow, Reply, answer, fails, Desk}
use scalper_v.Execution.Emergency.{
  Ended, returned, raised, CloseEnv, emergency_close_tracked_position,
}

-- A position at the exchange; `side` is none where it is flat.
pub record Position : Type 0 where
  pub symbol : ℕ
  pub side : Option Side
  pub size : Decimal
  pub sl_price : Option Decimal

-- `sl_miss_counters`, a dictionary from bot and symbol.
abbrev pub Counters : Type 0
Counters = List ((ℕ × ℕ) × ℕ)

abbrev pub same_key : ℕ × ℕ → ℕ × ℕ → Bool
same_key (a, b) (c, d) = (a == c) && (b == d)

-- `counters.get(key, 0)`
unfoldable pub count_of : ℕ × ℕ → Counters → ℕ
count_of k [] = 0
count_of k ((j, n) ∷ rest) = let later = count_of k rest in if same_key j k then n else later

-- `counters.pop(key, None)`
unfoldable pub pop : ℕ × ℕ → Counters → Counters
pop k [] = []
pop k ((j, n) ∷ rest) = let later = pop k rest in if same_key j k then later else (j, n) ∷ later

unfoldable pub set_count : ℕ × ℕ → ℕ → Counters → Counters
unfolding pop
set_count k n counters = (k, n) ∷ pop k counters

abbrev pub member : ℕ → List ℕ → Bool
member k [] = false
member k (x ∷ xs) = (x == k) || member k xs

abbrev pub key_member : ℕ × ℕ → List (ℕ × ℕ) → Bool
key_member k [] = false
key_member k (x ∷ xs) = same_key x k || key_member k xs

-- The end of a tick: a key of a bot that was looked at goes, unless its stop was seen missing.
unfoldable pub prune : List ℕ → List (ℕ × ℕ) → Counters → Counters
prune observed eligible [] = []
prune observed eligible (((bot, symbol), n) ∷ rest) =
    let later = prune observed eligible rest in
    if member bot observed && not (key_member (bot, symbol) eligible)
    then later
    else ((bot, symbol), n) ∷ later

unfoldable pub sl_missing : Position → Bool
unfolding ◌≤?◌
sl_missing p = elim p.sl_price [ none ↦ true | some sl ↦ sl ≤? int (pos 0) ]

-- A tick in progress; `alive` is false once an exception has left it.
pub record Watch : Type 0 where
  pub counters : Counters
  pub observed : List ℕ
  pub eligible : List (ℕ × ℕ)
  pub desk : Desk
  pub alive : Bool

-- The row of a symbol among those that were read when the tick began.
unfoldable pub row_of : ℕ → ℕ → List PositionStateRow → Option PositionStateRow
row_of bot symbol [] = none
row_of bot symbol (r ∷ rs) =
    let later = row_of bot symbol rs in
    if (r.bot_id == bot) && (r.symbol == symbol) then some r else later

-- At the threshold; if the helper raises, the tick is left before the counter is cleared.
unfoldable pub after_fire : ℕ × ℕ → Watch → Desk × Ended → Watch
unfolding pop
after_fire k w (d, returned) = record w { counters = pop k w.counters; desk = d }
after_fire k w (d, raised) = record w { desk = d; alive = false }

-- What a tick is given: the threshold, and for a bot and a symbol what an emergency close meets.
pub record WatchEnv : Type 0 where
  pub threshold : ℕ
  pub closes : ℕ → ℕ → CloseEnv

unfoldable pub confirmed : WatchEnv → ℕ → Position → PositionStateRow → Watch → Watch
unfolding count_of set_count after_fire emergency_close_tracked_position
confirmed env bot p row w =
    let k : ℕ × ℕ = (bot, p.symbol) in
    let n = count_of k w.counters + 1 in
    let w' = record w { counters = set_count k n w.counters; eligible = k ∷ w.eligible } in
    if leb env.threshold n
    then after_fire k w' (emergency_close_tracked_position (env.closes bot p.symbol) bot row w.desk)
    else w'

unfoldable pub matched : WatchEnv → ℕ → Position → Option PositionStateRow → Watch → Watch
unfolding confirmed pop sl_missing
matched env bot p none w = w
matched env bot p (some row) w =
    if sl_missing p
    then confirmed env bot p row w
    else record w { counters = pop (bot, p.symbol) w.counters }

-- The loop over the open positions of one bot, one for each symbol.
unfoldable pub check_positions :
    WatchEnv → ℕ → List PositionStateRow → List Position → Watch → Watch
unfolding matched row_of ◌<?◌
check_positions env bot rows [] w = w
check_positions env bot rows (p ∷ ps) w =
    let w' = if int (pos 0) <? p.size then matched env bot p (row_of bot p.symbol rows) w else w in
    let rest = check_positions env bot rows ps w' in if w'.alive then rest else w'

-- A bot whose positions could not be read is passed over, whatever the error.
unfoldable pub check_bots :
    WatchEnv → List PositionStateRow → List (ℕ × Reply (List Position)) → Watch → Watch
unfolding check_positions
check_bots env rows [] w = w
check_bots env rows ((bot, fails e) ∷ bots) w = check_bots env rows bots w
check_bots env rows ((bot, answer positions) ∷ bots) w =
    let w' = check_positions env bot rows positions (record w { observed = bot ∷ w.observed }) in
    let rest = check_bots env rows bots w' in if w'.alive then rest else w'

unfoldable pub finish : Watch → Counters
unfolding prune
finish w = if w.alive then prune w.observed w.eligible w.counters else w.counters

-- `run_sl_watchdog_tick` over the live bots in their order: the counters, and the desk.
unfoldable pub run_sl_watchdog_tick :
    WatchEnv → List (ℕ × Reply (List Position)) → Counters → Desk → Counters × Desk
unfolding check_bots finish
run_sl_watchdog_tick env bots counters d =
    let start : Watch = record {
      counters = counters;
      observed = [];
      eligible = [];
      desk = d;
      alive = true;
    } in
    let w = check_bots env d.tables.position_state bots start in (finish w, w.desk)
