-- ===== src/Execution/Streaks/Marks.antt =====
-- services/execution/app/sl_watchdog.py: what one position of a tick does to the counter of a key.
use scalper_v.Base.{
  arith, ℕ, ◌+◌, ◌≡◌, ◌⊎◌, inl, inr, refl, Bool, true, false, Option, none, some, List, [], ◌∷◌,
  leb, if_cases, if◌then◌else◌,
}
use scalper_v.Base.Int.{pos}
use scalper_v.Decimal.{int, ◌<?◌}
use scalper_v.Execution.{PositionStateRow, answer, fails, unknown_state, Desk}
use scalper_v.Execution.Statements.{select_open_order_id_by_trade_id}
use scalper_v.Execution.Emergency.{
  Ended, returned, raised, CloseEnv, emergency_close_tracked_position, tracked_by_reply,
  tracked_by_order,
}
use scalper_v.Execution.Watchdog.{
  Position, Counters, same_key, count_of, pop, set_count, key_member, sl_missing, Watch, row_of,
  after_fire, WatchEnv, confirmed, matched,
}
use scalper_v.Execution.Streaks.{Key, missing, streak, count-pop, count-set}

-- What one position does to the counter of its key.
pub data Mark : Type 0 where
  pass reset miss : Mark

abbrev pub counted : ℕ → Mark → ℕ → ℕ
counted threshold pass n = n
counted threshold reset n = 0
counted threshold miss n = streak threshold missing n

abbrev pub flagged : Mark → Bool → Bool
flagged pass e = e
flagged reset e = e
flagged miss e = true

abbrev pub mark_row : Position → Option PositionStateRow → Mark
mark_row p none = pass
mark_row p (some row) = if sl_missing p then miss else reset

unfoldable pub mark_of : ℕ → List PositionStateRow → Position → Mark
unfolding row_of sl_missing ◌<?◌
mark_of bot rows p = if int (pos 0) <? p.size then mark_row p (row_of bot p.symbol rows) else pass

-- No close raises.
abbrev pub Returns : WatchEnv → Type 0
Returns env =
    (b s : ℕ)
    → ((x : ℕ) × ((env.closes b s).reply ≡ answer x))
      ⊎ ((env.closes b s).reply ≡ fails unknown_state)

-- From `w` to `w'` the key `k` is met with the mark `m`.
pub record Advances (threshold : ℕ) (k : Key) (m : Mark) (w w' : Watch) : Type 0 where
  pub count : count_of k w'.counters ≡ counted threshold m (count_of k w.counters)
  pub flag : key_member k w'.eligible ≡ flagged m (key_member k w.eligible)
  pub observed : w'.observed ≡ w.observed
  pub alive : w'.alive ≡ w.alive

abbrev pub noted : Key → ℕ → Watch → Watch
noted j n w = record w { counters = set_count j n w.counters; eligible = j ∷ w.eligible }

same-count : (k j : Key) (c : Counters) → same_key j k ≡ true → count_of k c ≡ count_of j c
unfolding count_of
same-count k j [] e = refl
same-count k j ((i, n) ∷ c) e = ground (arith, same-count k j c e)

same-streak :
    (threshold : ℕ) (k j : Key) (c : Counters)
    → same_key j k ≡ true
    → leb threshold (count_of j c + 1) ≡ true
    → 0 ≡ streak threshold missing (count_of k c)
unfolding count_of
same-streak threshold k j c e l = rw (same-count k j c e) (rw l refl)

same-longer :
    (threshold : ℕ) (k j : Key) (c : Counters)
    → same_key j k ≡ true
    → leb threshold (count_of j c + 1) ≡ false
    → count_of j c + 1 ≡ streak threshold missing (count_of k c)
same-longer threshold k j c e l = rw (same-count k j c e) (rw l refl)

module _ (env : WatchEnv) (returns : Returns env) (bot : ℕ) (rows : List PositionStateRow) where
  tracked-returned :
      (c : CloseEnv) (row : PositionStateRow) (x : ℕ) (o : Option ℕ) (d : Desk)
      → (tracked_by_order c bot row x o d).1 ≡ returned
  unfolding tracked_by_order
  tracked-returned c row x none d = refl
  tracked-returned c row x (some o) d =
      if_cases (λ (z : Desk × Ended). z.1 ≡ returned) c.commits _ _ (λ e. refl) (λ e. refl)

  close-returned :
      (s : ℕ) (row : PositionStateRow) (d : Desk)
      → (emergency_close_tracked_position (env.closes bot s) bot row d).1 ≡ returned
  unfolding emergency_close_tracked_position tracked_by_reply
  close-returned s row d = elim (returns bot s) [
    | inl (x, q) ↦ rw q (
        tracked-returned (env.closes bot s) row x
          (select_open_order_id_by_trade_id row.trade_id d.tables) _)
    | inr q ↦ rw q refl
  ]

  fired-Advances :
      (k j : Key) (n : ℕ) (w : Watch) (x : Desk × Ended)
      → x.1 ≡ returned
      → leb env.threshold (count_of j w.counters + 1) ≡ true
      → Advances env.threshold k
          (if same_key j k then miss else pass)
          w
          (after_fire j (noted j n w) x)
  unfolding after_fire
  fired-Advances k j n w (d, returned) q l =
      let p = count-pop k j (set_count j n w.counters) in
      let c = count-set k j n w.counters in
      if_cases (λ m. Advances env.threshold k m w (after_fire j (noted j n w) (d, returned)))
        (same_key j k) miss pass
        (λ e. record {
          count = rw p (rw e (same-streak env.threshold k j w.counters e l));
          flag = rw e refl;
          observed = refl;
          alive = refl;
        })
        (λ e. record {
          count = rw p (rw e (rw c (rw e refl)));
          flag = rw e refl;
          observed = refl;
          alive = refl;
        })
  fired-Advances k j n w (d, raised) q l = ground (arith, q)

  noted-Advances :
      (k j : Key) (w : Watch)
      → leb env.threshold (count_of j w.counters + 1) ≡ false
      → Advances env.threshold k
          (if same_key j k then miss else pass)
          w
          (noted j (count_of j w.counters + 1) w)
  noted-Advances k j w l =
      let n = count_of j w.counters + 1 in
      let c = count-set k j n w.counters in
      if_cases (λ m. Advances env.threshold k m w (noted j n w)) (same_key j k) miss pass
        (λ e. record {
          count = rw c (rw e (same-longer env.threshold k j w.counters e l));
          flag = rw e refl;
          observed = refl;
          alive = refl;
        })
        (λ e. record { count = rw c (rw e refl); flag = rw e refl; observed = refl; alive = refl })

  confirmed-Advances :
      (k : Key) (p : Position) (row : PositionStateRow) (w : Watch)
      → Advances env.threshold k
          (if same_key (bot, p.symbol) k then miss else pass)
          w
          (confirmed env bot p row w)
  unfolding confirmed
  confirmed-Advances k p row w =
      let j : Key = (bot, p.symbol) in
      let n = count_of j w.counters + 1 in
      if_cases (Advances env.threshold k (if same_key j k then miss else pass) w)
        (leb env.threshold n)
        (after_fire j (noted j n w)
          (emergency_close_tracked_position (env.closes bot p.symbol) bot row w.desk))
        (noted j n w) (λ e. fired-Advances k j n w _ (close-returned p.symbol row w.desk) e)
        (λ e. noted-Advances k j w e)

  popped-Advances :
      (k j : Key) (w : Watch)
      → Advances env.threshold k
          (if same_key j k then reset else pass)
          w
          (record w { counters = pop j w.counters })
  popped-Advances k j w =
      let c = count-pop k j w.counters in
      if_cases (λ m. Advances env.threshold k m w (record w { counters = pop j w.counters }))
        (same_key j k) reset pass
        (λ e. record { count = rw c (rw e refl); flag = refl; observed = refl; alive = refl })
        (λ e. record { count = rw c (rw e refl); flag = refl; observed = refl; alive = refl })

  pub stays-Advances :
      (k : Key) (c : Bool) (w : Watch) → Advances env.threshold k (if c then pass else pass) w w
  stays-Advances k c w =
      if_cases (λ m. Advances env.threshold k m w w) c pass pass
        (λ e. record { count = refl; flag = refl; observed = refl; alive = refl })
        (λ e. record { count = refl; flag = refl; observed = refl; alive = refl })

  matched-Advances :
      (k : Key) (p : Position) (o : Option PositionStateRow) (w : Watch)
      → Advances env.threshold k
          (if same_key (bot, p.symbol) k then mark_row p o else pass)
          w
          (matched env bot p o w)
  unfolding matched
  matched-Advances k p none w = stays-Advances k (same_key (bot, p.symbol) k) w
  matched-Advances k p (some row) w =
      either (sl_missing p) (confirmed-Advances k p row w) (popped-Advances k (bot, p.symbol) w)
    where
      either :
          (c : Bool)
          → Advances env.threshold k
              (if same_key (bot, p.symbol) k then miss else pass)
              w
              (confirmed env bot p row w)
          → Advances env.threshold k
              (if same_key (bot, p.symbol) k then reset else pass)
              w
              (record w { counters = pop (bot, p.symbol) w.counters })
          → Advances env.threshold k
              (if same_key (bot, p.symbol) k then (if c then miss else reset) else pass)
              w
              (if c
                then confirmed env bot p row w
                else record w { counters = pop (bot, p.symbol) w.counters })
      either true h i = h
      either false h i = i

  -- The watch after one position.
  abbrev pub checked : Position → Watch → Watch
  checked p w = if int (pos 0) <? p.size then matched env bot p (row_of bot p.symbol rows) w else w

  pub checked-Advances :
      (k : Key) (p : Position) (w : Watch)
      → Advances env.threshold k
          (if same_key (bot, p.symbol) k then mark_of bot rows p else pass)
          w
          (checked p w)
  unfolding mark_of
  checked-Advances k p w =
      either (int (pos 0) <? p.size) (matched-Advances k p (row_of bot p.symbol rows) w)
        (stays-Advances k (same_key (bot, p.symbol) k) w)
    where
      either :
          (c : Bool)
          → Advances env.threshold k
              (if same_key (bot, p.symbol) k then mark_row p (row_of bot p.symbol rows) else pass)
              w
              (matched env bot p (row_of bot p.symbol rows) w)
          → Advances env.threshold k (if same_key (bot, p.symbol) k then pass else pass) w w
          → Advances env.threshold k
              (if same_key (bot, p.symbol) k
                then (if c then mark_row p (row_of bot p.symbol rows) else pass)
                else pass)
              w
              (if c then matched env bot p (row_of bot p.symbol rows) w else w)
      either true h i = h
      either false h i = i
