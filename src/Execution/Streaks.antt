-- ===== src/Execution/Streaks.antt =====
-- services/execution/app/sl_watchdog.py: the counter of a bot and a symbol is the length of the
-- streak of ticks on which its stop was seen to be missing.
pub mod Marks
pub mod Positions
pub mod Bots
pub mod Ticks
use scalper_v.Base.{
  arith, subst, ℕ, ◌+◌, ◌≡◌, ◌≢◌, ◌⊎◌, inl, inr, refl, sym, ap, ◌∙◌, Bool, true, false, not, Option,
  none, some, List, [], ◌∷◌, All, ◌==◌, leb, ◌&&◌, ◌||◌, if_cases, Bool-cases, if◌then◌else◌,
}
use scalper_v.Base.Int.{pos}
use scalper_v.Decimal.{Decimal, int, ◌<?◌}
use scalper_v.Execution.{PositionStateRow, Reply, answer, fails, unknown_state, Desk}
use scalper_v.Execution.Statements.{select_open_order_id_by_trade_id}
use scalper_v.Execution.Emergency.{
  Ended, returned, raised, CloseEnv, emergency_close_tracked_position, tracked_by_reply,
  tracked_by_order,
}
use scalper_v.Execution.Watchdog.{
  Position, Counters, same_key, count_of, pop, set_count, member, key_member, prune, sl_missing,
  Watch, row_of, after_fire, WatchEnv, confirmed, matched, check_positions, check_bots, finish,
  run_sl_watchdog_tick,
}

abbrev pub Key : Type 0
Key = ℕ × ℕ

-- What a tick sees of a key: its bot's positions could not be read, or there is no position of the
-- service that lacks its stop, or there is one.
pub data Observation : Type 0 where
  unseen cleared missing : Observation

-- The streak after a tick; at the threshold the position is closed and the streak starts again.
abbrev pub streak : ℕ → Observation → ℕ → ℕ
streak threshold unseen n = n
streak threshold cleared n = 0
streak threshold missing n = if leb threshold (n + 1) then 0 else n + 1

-- Whether the position of a symbol is one of the service without its stop.
unfoldable pub lacks_stop : ℕ → List PositionStateRow → ℕ → List Position → Bool
unfolding row_of sl_missing ◌<?◌
lacks_stop bot rows symbol [] = false
lacks_stop bot rows symbol (p ∷ ps) =
    let later = lacks_stop bot rows symbol ps in
    if p.symbol == symbol
    then (int (pos 0) <? p.size)
      && (elim (row_of bot p.symbol rows) [ none ↦ false | some row ↦ sl_missing p ])
    else later

unfoldable pub sight : List PositionStateRow → Key → List (ℕ × Reply (List Position)) → Observation
unfolding lacks_stop
sight rows (bot, symbol) [] = unseen
sight rows (bot, symbol) ((b, fails e) ∷ bots) =
    let later = sight rows (bot, symbol) bots in if b == bot then unseen else later
sight rows (bot, symbol) ((b, answer ps) ∷ bots) =
    let later = sight rows (bot, symbol) bots in
    if b == bot then (if lacks_stop bot rows symbol ps then missing else cleared) else later

pub count-pop :
    (k j : Key) (c : Counters) → count_of k (pop j c) ≡ (if same_key j k then 0 else count_of k c)
unfolding count_of pop
count-pop k j [] = ground arith
count-pop k j ((i, n) ∷ c) = ground (arith, count-pop k j c)

pub count-set :
    (k j : Key) (n : ℕ) (c : Counters)
    → count_of k (set_count j n c) ≡ (if same_key j k then n else count_of k c)
unfolding count_of set_count
count-set k j n c = ground (arith, count-pop k j c)

pub count-prune :
    (bot symbol : ℕ) (observed : List ℕ) (eligible : List Key) (c : Counters)
    → count_of (bot, symbol) (prune observed eligible c) ≡ (
        if member bot observed && not (key_member (bot, symbol) eligible)
        then 0
        else count_of (bot, symbol) c)
unfolding count_of prune
count-prune bot symbol observed eligible [] = ground arith
count-prune bot symbol observed eligible (((b, s), n) ∷ c) =
    ground (arith, count-prune bot symbol observed eligible c)
