-- ===== src/Execution/Streaks/Bots.antt =====
-- services/execution/app/sl_watchdog.py: what the loop over the bots does to the counter of a key, and
-- the bots that are not its own.
use scalper_v.Base.{
  arith, ℕ, ◌≡◌, ◌≢◌, refl, sym, ap, ◌∙◌, Bool, true, false, Option, none, some, List, [], ◌∷◌, All,
  ◌==◌, ◌&&◌, if_cases, if◌then◌else◌,
}
use scalper_v.Base.Int.{pos}
use scalper_v.Decimal.{int, ◌<?◌}
use scalper_v.Execution.{PositionStateRow, Reply, answer, fails}
use scalper_v.Execution.Watchdog.{
  Position, count_of, member, key_member, sl_missing, Watch, row_of, WatchEnv, check_positions,
  check_bots,
}
use scalper_v.Execution.Streaks.{Key, Observation, unseen, cleared, missing, streak, lacks_stop}
use scalper_v.Execution.Streaks.Marks.{Mark, pass, reset, miss, mark_row, mark_of, Returns}
use scalper_v.Execution.Streaks.Positions.{mark_in, OneEach, check_positions-others}

abbrev pub Bots : Type 0
Bots = List (ℕ × Reply (List Position))

-- Each bot stands once, and each symbol once among its positions.
abbrev pub IsKeyed : Bots → Type 0
IsKeyed [] = Unit
IsKeyed ((b, fails e) ∷ bots) = All (λ y. y.0 ≢ b) bots × IsKeyed bots
IsKeyed ((b, answer ps) ∷ bots) = All (λ y. y.0 ≢ b) bots × (OneEach ps × IsKeyed bots)

abbrev pub kept : Observation → Bool → Bool
kept missing e = true
kept cleared e = e
kept unseen e = e

abbrev pub looked : Observation → Bool → Bool
looked missing e = true
looked cleared e = true
looked unseen e = e

pub unseen≢cleared : unseen ≢ cleared
unseen≢cleared q = ground (arith, q)

-- What the loop over the bots does to a key, by what the tick sees of it.
pub record Meets (threshold : ℕ) (k : Key) (o : Observation) (w w' : Watch) : Type 0 where
  pub streak_of : o ≢ cleared → count_of k w'.counters ≡ streak threshold o (count_of k w.counters)
  pub flag : key_member k w'.eligible ≡ kept o (key_member k w.eligible)
  pub seen : member k.0 w'.observed ≡ looked o (member k.0 w.observed)
  pub alive : w'.alive ≡ w.alive

pub member-other : (k b : ℕ) (bs : List ℕ) → b ≢ k → member k (b ∷ bs) ≡ member k bs
member-other k b bs h = ground (arith, h)

pub member-first : (b : ℕ) (bs : List ℕ) → member b (b ∷ bs) ≡ true
member-first b bs = ground arith

abbrev pub is_miss : Mark → Bool
is_miss miss = true
is_miss pass = false
is_miss reset = false

pub mark_row-miss :
    (p : Position) (o : Option PositionStateRow)
    → is_miss (mark_row p o) ≡ (elim o [ none ↦ false | some row ↦ sl_missing p ])
mark_row-miss p none = refl
mark_row-miss p (some row) =
    if_cases (λ m. is_miss m ≡ sl_missing p) (sl_missing p) miss reset (λ e. sym e) (λ e. sym e)

pub mark_in-lacks :
    (bot : ℕ) (rows : List PositionStateRow) (symbol : ℕ) (ps : List Position)
    → is_miss (mark_in bot rows symbol ps) ≡ lacks_stop bot rows symbol ps
unfolding mark_in lacks_stop mark_of
mark_in-lacks bot rows symbol [] = refl
mark_in-lacks bot rows symbol (p ∷ ps) =
    both (mark_in-lacks bot rows symbol ps) (p.symbol == symbol) (int (pos 0) <? p.size)
  where
    both :
        is_miss (mark_in bot rows symbol ps) ≡ lacks_stop bot rows symbol ps
        → (c d : Bool)
        → is_miss (
            if c
            then (if d then mark_row p (row_of bot p.symbol rows) else pass)
            else mark_in bot rows symbol ps)
          ≡ (if c
              then d && (elim (row_of bot p.symbol rows) [ none ↦ false | some row ↦ sl_missing p ])
              else lacks_stop bot rows symbol ps)
    both l true true = mark_row-miss p (row_of bot p.symbol rows)
    both l true false = refl
    both l false d = l

module _ (env : WatchEnv) (returns : Returns env) (rows : List PositionStateRow) where
  pub Meets-after :
      (k : Key) (o : Observation) (w x y : Watch)
      → Meets env.threshold k unseen w x
      → Meets env.threshold k o x y
      → Meets env.threshold k o w y
  Meets-after k o w x y h i = record {
    streak_of = λ c. i.streak_of c ∙ ap (streak env.threshold o) (h.streak_of unseen≢cleared);
    flag = i.flag ∙ ap (kept o) h.flag;
    seen = i.seen ∙ ap (looked o) h.seen;
    alive = i.alive ∙ h.alive;
  }

  pub Meets-before :
      (k : Key) (o : Observation) (w x y : Watch)
      → Meets env.threshold k o w x
      → Meets env.threshold k unseen x y
      → Meets env.threshold k o w y
  Meets-before k o w x y h i = record {
    streak_of = λ c. i.streak_of unseen≢cleared ∙ h.streak_of c;
    flag = i.flag ∙ h.flag;
    seen = i.seen ∙ h.seen;
    alive = i.alive ∙ h.alive;
  }

  -- The watch after the positions of one bot.
  abbrev pub looked_at : ℕ → List Position → Watch → Watch
  looked_at b ps w = check_positions env b rows ps (record w { observed = b ∷ w.observed })

  pub other-Meets :
      (k : Key) (b : ℕ) (ps : List Position) (w : Watch)
      → w.alive ≡ true
      → b ≢ k.0
      → Meets env.threshold k unseen w (looked_at b ps w)
  other-Meets k b ps w alive h =
      let a =
        check_positions-others env returns b rows k ps (record w { observed = b ∷ w.observed })
          alive (λ q. h (sym q)) in
      record {
        streak_of = λ c. a.count;
        flag = a.flag;
        seen = ap (member k.0) a.observed ∙ member-other k.0 b w.observed h;
        alive = a.alive;
      }

  -- The first bot and the others.
  pub check_bots-cons :
      (k : Key) (o : Observation) (b : ℕ) (ps : List Position) (bots : Bots) (w : Watch)
      → (looked_at b ps w).alive ≡ true
      → Meets env.threshold k o w (check_bots env rows bots (looked_at b ps w))
      → Meets env.threshold k o w (check_bots env rows ((b, answer ps) ∷ bots) w)
  unfolding check_bots
  check_bots-cons k o b ps bots w alive h = rw alive h

  pub unseen-Meets :
      (k : Key) (bots : Bots) (w : Watch)
      → w.alive ≡ true
      → All (λ y. y.0 ≢ k.0) bots
      → Meets env.threshold k unseen w (check_bots env rows bots w)
  unfolding check_bots
  unseen-Meets k [] w alive h = record {
    streak_of = λ c. refl;
    flag = refl;
    seen = refl;
    alive = refl;
  }
  unseen-Meets k ((b, fails e) ∷ bots) w alive (h, hs) = unseen-Meets k bots w alive hs
  unseen-Meets k ((b, answer ps) ∷ bots) w alive (h, hs) =
      let a = other-Meets k b ps w alive h in
      let x = looked_at b ps w in
      check_bots-cons k unseen b ps bots w (a.alive ∙ alive) (
        Meets-after k unseen w x (check_bots env rows bots x) a
          (unseen-Meets k bots x (a.alive ∙ alive) hs))
