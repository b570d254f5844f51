-- ===== src/Execution/Streaks/Ticks.antt =====
-- services/execution/app/sl_watchdog.py: a whole tick, at the counter of one key.
use scalper_v.Base.{
  arith, ℕ, ◌≡◌, ◌≢◌, refl, sym, ap, subst, ◌∙◌, true, false, List, [], ◌∷◌, All, ◌==◌, if_cases,
  if◌then◌else◌,
}
use scalper_v.Execution.{PositionStateRow, answer, fails, Desk}
use scalper_v.Execution.Watchdog.{
  Position, Counters, count_of, member, key_member, Watch, WatchEnv, check_positions, check_bots,
  finish, run_sl_watchdog_tick,
}
use scalper_v.Execution.Streaks.{
  Observation, unseen, cleared, missing, streak, lacks_stop, sight, count-prune,
}
use scalper_v.Execution.Streaks.Marks.{Mark, pass, reset, miss, Returns, Advances}
use scalper_v.Execution.Streaks.Positions.{mark_in, OneEach, check_positions-Advances}
use scalper_v.Execution.Streaks.Bots.{
  Bots, IsKeyed, kept, looked, unseen≢cleared, Meets, member-first, is_miss, mark_in-lacks,
  Meets-after, Meets-before, looked_at, other-Meets, check_bots-cons, unseen-Meets,
}

module _ (env : WatchEnv) (returns : Returns env) (rows : List PositionStateRow) where
  -- The first bot is the one of the key.
  here-Meets :
      (symbol b : ℕ) (ps : List Position) (w : Watch)
      → w.alive ≡ true
      → OneEach ps
      → Meets env.threshold
          (b, symbol)
          (if lacks_stop b rows symbol ps then missing else cleared)
          w
          (check_positions env b rows ps (record w { observed = b ∷ w.observed }))
  here-Meets symbol b ps w alive u =
      of_mark (mark_in b rows symbol ps) (mark_in-lacks b rows symbol ps) (
        check_positions-Advances env returns b rows symbol ps
          (record w { observed = b ∷ w.observed }) alive u)
    where
      of_mark :
          (m : Mark)
          → is_miss m ≡ lacks_stop b rows symbol ps
          → Advances env.threshold
              (b, symbol)
              m
              (record w { observed = b ∷ w.observed })
              (check_positions env b rows ps (record w { observed = b ∷ w.observed }))
          → Meets env.threshold
              (b, symbol)
              (if lacks_stop b rows symbol ps then missing else cleared)
              w
              (check_positions env b rows ps (record w { observed = b ∷ w.observed }))
      of_mark pass q a = rw (sym q) (record {
        streak_of = λ c. absurd (c refl);
        flag = a.flag;
        seen = ap (member b) a.observed ∙ member-first b w.observed;
        alive = a.alive;
      })
      of_mark reset q a = rw (sym q) (record {
        streak_of = λ c. absurd (c refl);
        flag = a.flag;
        seen = ap (member b) a.observed ∙ member-first b w.observed;
        alive = a.alive;
      })
      of_mark miss q a = rw (sym q) (record {
        streak_of = λ c. a.count;
        flag = a.flag;
        seen = ap (member b) a.observed ∙ member-first b w.observed;
        alive = a.alive;
      })

  this-Meets :
      (symbol b : ℕ) (ps : List Position) (bots : Bots) (w : Watch)
      → w.alive ≡ true
      → All (λ y. y.0 ≢ b) bots
      → OneEach ps
      → Meets env.threshold
          (b, symbol)
          (if lacks_stop b rows symbol ps then missing else cleared)
          w
          (check_bots env rows ((b, answer ps) ∷ bots) w)
  this-Meets symbol b ps bots w alive new one =
      let o = if lacks_stop b rows symbol ps then missing else cleared in
      let x = looked_at env returns rows b ps w in
      let a = here-Meets symbol b ps w alive one in
      check_bots-cons env returns rows (b, symbol) o b ps bots w (a.alive ∙ alive)
        (Meets-before env returns rows (b, symbol) o w x (check_bots env rows bots x) a
          (unseen-Meets env returns rows (b, symbol) bots x (a.alive ∙ alive) new))

  check_bots-Meets :
      (bot symbol : ℕ) (bots : Bots) (w : Watch)
      → w.alive ≡ true
      → IsKeyed bots
      → Meets env.threshold
          (bot, symbol)
          (sight rows (bot, symbol) bots)
          w
          (check_bots env rows bots w)
  unfolding sight check_bots
  check_bots-Meets bot symbol [] w alive h = record {
    streak_of = λ c. refl;
    flag = refl;
    seen = refl;
    alive = refl;
  }
  check_bots-Meets bot symbol ((b, fails e) ∷ bots) w alive (new, h) =
      if_cases (λ o. Meets env.threshold (bot, symbol) o w (check_bots env rows bots w)) (b == bot)
        unseen (sight rows (bot, symbol) bots)
        (λ q.
          unseen-Meets env returns rows (bot, symbol) bots w alive
            (subst (λ x. All (λ y. y.0 ≢ x) bots) (ground (arith, q)) new))
        (λ q. check_bots-Meets bot symbol bots w alive h)
  check_bots-Meets bot symbol ((b, answer ps) ∷ bots) w alive (new, (one, h)) =
      if_cases
        (λ o. Meets env.threshold (bot, symbol) o w (check_bots env rows ((b, answer ps) ∷ bots) w))
        (b == bot) (if lacks_stop bot rows symbol ps then missing else cleared)
        (sight rows (bot, symbol) bots)
        (λ q.
          subst
            (λ x.
              Meets env.threshold (x, symbol)
                (if lacks_stop x rows symbol ps then missing else cleared) w
                (check_bots env rows ((b, answer ps) ∷ bots) w))
            (ground (arith, q)) (this-Meets symbol b ps bots w alive new one))
        (λ q.
          let a = other-Meets env returns rows (bot, symbol) b ps w alive (ground (arith, q)) in
          let x = looked_at env returns rows b ps w in
          let o = sight rows (bot, symbol) bots in
          check_bots-cons env returns rows (bot, symbol) o b ps bots w (a.alive ∙ alive)
            (Meets-after env returns rows (bot, symbol) o w x (check_bots env rows bots x) a
              (check_bots-Meets bot symbol bots x (a.alive ∙ alive) h)))

finished :
    (bot symbol : ℕ) (t n : ℕ) (o : Observation) (w : Watch)
    → w.alive ≡ true
    → (o ≢ cleared → count_of (bot, symbol) w.counters ≡ streak t o n)
    → key_member (bot, symbol) w.eligible ≡ kept o false
    → member bot w.observed ≡ looked o false
    → count_of (bot, symbol) (finish w) ≡ streak t o n
unfolding finish
finished bot symbol t n unseen w alive c f s =
    let p = count-prune bot symbol w.observed w.eligible w.counters in
    rw alive (rw p (rw s (c unseen≢cleared)))
finished bot symbol t n cleared w alive c f s =
    let p = count-prune bot symbol w.observed w.eligible w.counters in
    rw alive (rw p (rw (s, f) refl))
finished bot symbol t n missing w alive c f s =
    let p = count-prune bot symbol w.observed w.eligible w.counters in
    rw alive (rw p (rw (s, f) (c (λ q. ground (arith, q)))))

-- A tick of the watchdog does to the counter of a bot and a symbol what the length of a streak does:
-- it stays if the bot's positions could not be read, starts again if no position of the service
-- lacks its stop there, and else grows by one, up to the threshold, where it starts again. Each bot
-- stands once among the bots and each symbol once among the positions of a bot, and no close raises.
pub run_sl_watchdog_tick-refines :
    (env : WatchEnv) (bots : Bots) (counters : Counters) (d : Desk) (bot symbol : ℕ)
    → Returns env
    → IsKeyed bots
    → count_of (bot, symbol) (run_sl_watchdog_tick env bots counters d).0
      ≡ streak env.threshold
          (sight d.tables.position_state (bot, symbol) bots)
          (count_of (bot, symbol) counters)
unfolding run_sl_watchdog_tick
run_sl_watchdog_tick-refines env bots counters d bot symbol returns keyed =
    let rows = d.tables.position_state in
    let w : Watch = record {
      counters = counters;
      observed = [];
      eligible = [];
      desk = d;
      alive = true;
    } in
    let m = check_bots-Meets env returns rows bot symbol bots w refl keyed in
    finished bot symbol env.threshold (count_of (bot, symbol) counters)
      (sight rows (bot, symbol) bots) (check_bots env rows bots w) m.alive m.streak_of m.flag m.seen
