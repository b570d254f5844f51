-- ===== src/Execution/Streaks/Positions.antt =====
-- services/execution/app/sl_watchdog.py: what the positions of one bot do to the counter of a key.
use scalper_v.Base.{
  arith, subst, ℕ, ◌≡◌, ◌≢◌, refl, ap, ◌∙◌, Bool, true, false, List, [], ◌∷◌, All, ◌==◌, if_cases,
  if◌then◌else◌,
}
use scalper_v.Execution.{PositionStateRow}
use scalper_v.Execution.Watchdog.{Position, same_key, Watch, WatchEnv, check_positions}
use scalper_v.Execution.Streaks.{Key}
use scalper_v.Execution.Streaks.Marks.{
  Mark, pass, counted, flagged, mark_of, Returns, Advances, checked, checked-Advances,
  stays-Advances,
}

-- The mark of a symbol among the positions, one for each symbol.
unfoldable pub mark_in : ℕ → List PositionStateRow → ℕ → List Position → Mark
unfolding mark_of
mark_in bot rows symbol [] = pass
mark_in bot rows symbol (p ∷ ps) =
    let later = mark_in bot rows symbol ps in
    if p.symbol == symbol then mark_of bot rows p else later

abbrev pub OneEach : List Position → Type 0
OneEach [] = Unit
OneEach (p ∷ ps) = All (λ q. q.symbol ≢ p.symbol) ps × OneEach ps

mark_in-none :
    (bot : ℕ) (rows : List PositionStateRow) (symbol : ℕ) (ps : List Position)
    → All (λ q. q.symbol ≢ symbol) ps
    → mark_in bot rows symbol ps ≡ pass
unfolding mark_in
mark_in-none bot rows symbol [] h = refl
mark_in-none bot rows symbol (p ∷ ps) (h, hs) =
    ground (arith, h, mark_in-none bot rows symbol ps hs)

module _ (env : WatchEnv) (returns : Returns env) (bot : ℕ) (rows : List PositionStateRow) where
  pass-then :
      (k : Key) (n : Mark) (w x y : Watch)
      → Advances env.threshold k pass w x
      → Advances env.threshold k n x y
      → Advances env.threshold k n w y
  pass-then k n w x y h i = record {
    count = i.count ∙ ap (counted env.threshold n) h.count;
    flag = i.flag ∙ ap (flagged n) h.flag;
    observed = i.observed ∙ h.observed;
    alive = i.alive ∙ h.alive;
  }

  then-pass :
      (k : Key) (m : Mark) (w x y : Watch)
      → Advances env.threshold k m w x
      → Advances env.threshold k pass x y
      → Advances env.threshold k m w y
  then-pass k m w x y h i = record {
    count = i.count ∙ h.count;
    flag = i.flag ∙ h.flag;
    observed = i.observed ∙ h.observed;
    alive = i.alive ∙ h.alive;
  }

  checked-same :
      (k : Key) (p : Position) (w : Watch) (c : Bool)
      → same_key (bot, p.symbol) k ≡ c
      → Advances env.threshold k
          (if c then mark_of bot rows p else pass)
          w
          (checked env returns bot rows p w)
  checked-same k p w c q =
      subst
        (λ c.
          Advances env.threshold k (if c then mark_of bot rows p else pass) w
            (checked env returns bot rows p w))
        q (checked-Advances env returns bot rows k p w)

  -- The first position and the others.
  check_positions-cons :
      (k : Key) (m : Mark) (p : Position) (ps : List Position) (w : Watch)
      → w.alive ≡ true
      → Advances env.threshold k m w
          (check_positions env bot rows ps (checked env returns bot rows p w))
      → Advances env.threshold k m w (check_positions env bot rows (p ∷ ps) w)
  unfolding check_positions
  check_positions-cons k m p ps w alive h =
      rw ((checked-Advances env returns bot rows k p w).alive ∙ alive) h

  pub check_positions-Advances :
      (symbol : ℕ) (ps : List Position) (w : Watch)
      → w.alive ≡ true
      → OneEach ps
      → Advances env.threshold
          (bot, symbol)
          (mark_in bot rows symbol ps)
          w
          (check_positions env bot rows ps w)
  unfolding mark_in check_positions
  check_positions-Advances symbol [] w alive u =
      stays-Advances env returns bot rows (bot, symbol) true w
  check_positions-Advances symbol (p ∷ ps) w alive (new, u) =
      let k : Key = (bot, symbol) in
      let first = checked-Advances env returns bot rows k p w in
      let rest =
        check_positions-Advances symbol ps (checked env returns bot rows p w) (first.alive ∙ alive)
          u in
      check_positions-cons k (mark_in bot rows symbol (p ∷ ps)) p ps w alive (
        if_cases
          (λ m.
            Advances env.threshold k m w
              (check_positions env bot rows ps (checked env returns bot rows p w)))
          (p.symbol == symbol) (mark_of bot rows p) (mark_in bot rows symbol ps)
          (λ e.
            then-pass k (mark_of bot rows p) w (checked env returns bot rows p w)
              (check_positions env bot rows ps (checked env returns bot rows p w))
              (checked-same k p w true (ground (arith, e)))
              (subst
                (λ m.
                  Advances env.threshold k m (checked env returns bot rows p w)
                    (check_positions env bot rows ps (checked env returns bot rows p w)))
                (mark_in-none bot rows symbol ps
                  (subst (λ x. All (λ q. q.symbol ≢ x) ps) (ground (arith, e)) new))
                rest))
          (λ e.
            pass-then k (mark_in bot rows symbol ps) w (checked env returns bot rows p w)
              (check_positions env bot rows ps (checked env returns bot rows p w))
              (checked-same k p w false (ground (arith, e))) rest))

  pub check_positions-others :
      (k : Key) (ps : List Position) (w : Watch)
      → w.alive ≡ true
      → k.0 ≢ bot
      → Advances env.threshold k pass w (check_positions env bot rows ps w)
  unfolding check_positions
  check_positions-others k [] w alive h = stays-Advances env returns bot rows k true w
  check_positions-others k (p ∷ ps) w alive h =
      let first = checked-Advances env returns bot rows k p w in
      check_positions-cons k pass p ps w alive (
        pass-then k pass w (checked env returns bot rows p w)
          (check_positions env bot rows ps (checked env returns bot rows p w))
          (checked-same k p w false (ground (arith, h)))
          (check_positions-others k ps (checked env returns bot rows p w) (first.alive ∙ alive) h))
