-- ===== src/Risk/PeakQuery.antt =====
-- packages/db/queries/trades.py: what `select_pnl_peak_and_current` returns of a table of trades.
use mathlib.Core.List.Memᴰ.{head, tail}
use scalper_v.Base.{
  ℕ, zero, suc, ◌<◌, ◌≤◌, ◌≡◌, refl, sym, ap, ◌∙◌, ◌⊎◌, inl, inr, true, false, Option-cases,
  if_cases, le→leb, subst, Option, none, some, List, [], ◌∷◌, All, Memᴰ, arith, length, drop,
}
use scalper_v.Base.Int.{ℤ, pos, ◌+ℤ◌, ◌≤ℤ◌, +ℤ_parts, +ℤ_comm, +ℤ_assoc, eq_of_parts}
use scalper_v.Risk.Trades.{
  closed, TradeRow, ClosedTradeRow, Ranked, finalized, newer, insert_newest, keep_finalized,
  sorted_closed, rows_of, closed_trades, amount_since, sum_realized_pnl_since, pnl_curve,
  raise_peak, coalesce, select_pnl_peak_and_current,
}

-- The sum of the results of a list of closed trades.
pub sum_pnl : List ClosedTradeRow → ℤ
sum_pnl [] = pos 0
sum_pnl (r ∷ rs) = sum_pnl rs +ℤ r.realized_pnl

current-sum : (rows : List ClosedTradeRow) → (pnl_curve rows).current ≡ sum_pnl rows
unfolding pnl_curve sum_pnl
current-sum [] = refl
current-sum (r ∷ rs) = ap (λ n. n +ℤ r.realized_pnl) (current-sum rs)

raise_peak_running : (running : ℤ) (older : Option ℤ) → running ≤ℤ raise_peak running older
unfolding raise_peak
raise_peak_running running none = omega arith
raise_peak_running running (some q) = ground arith

raise_peak_older : (running q : ℤ) → q ≤ℤ raise_peak running (some q)
unfolding raise_peak
raise_peak_older running q = ground arith

raise_peak_either :
    (running : ℤ) (older : Option ℤ)
    → (raise_peak running older ≡ running) ⊎ (older ≡ some (raise_peak running older))
unfolding raise_peak
raise_peak_either running none = inl refl
raise_peak_either running (some q) = ground arith

-- The running sum up to the newest trade, and the peak, in one step.
peak-cons :
    (r : ClosedTradeRow) (rs : List ClosedTradeRow)
    → (pnl_curve (r ∷ rs)).peak ≡ some (raise_peak (sum_pnl (r ∷ rs)) (pnl_curve rs).peak)
unfolding pnl_curve sum_pnl
peak-cons r rs = rw (current-sum rs)

≤ℤ_trans : (a b c : ℤ) → a ≤ℤ b → b ≤ℤ c → a ≤ℤ c
≤ℤ_trans a b c h k = omega arith

-- No running sum, over the oldest trades up to some trade, exceeds the peak.
peak_bound :
    (rows : List ClosedTradeRow) (n : ℕ)
    → n < length rows
    → (p : ℤ) × ((pnl_curve rows).peak ≡ some p) × (sum_pnl (drop n rows) ≤ℤ p)
peak_bound [] n h = absurd (omega arith)
peak_bound (r ∷ rs) zero h =
    (raise_peak (sum_pnl (r ∷ rs)) (pnl_curve rs).peak, peak-cons r rs, raise_peak_running _ _)
peak_bound (r ∷ rs) (suc n) h =
    let (q, e, b) = peak_bound rs n (omega arith) in
    let running = sum_pnl (r ∷ rs) in
    (
      raise_peak running (some q),
      peak-cons r rs ∙ ap (λ o. some (raise_peak running o)) e,
      ≤ℤ_trans _ q _ b (raise_peak_older running q),
    )

-- The peak is itself a running sum.
peak_attained :
    (rows : List ClosedTradeRow) (p : ℤ)
    → (pnl_curve rows).peak ≡ some p
    → (n : ℕ) × (n < length rows) × (sum_pnl (drop n rows) ≡ p)
unfolding pnl_curve
peak_attained [] p e = cc
peak_attained (r ∷ rs) p e = elim (raise_peak_either (sum_pnl (r ∷ rs)) (pnl_curve rs).peak) [
  | inl newest ↦ (0, omega arith, cc (newest, e, peak-cons r rs))
  | inr before ↦
      let (n, h, q) = peak_attained rs p (cc (before, e, peak-cons r rs)) in (suc n, omega arith, q)
]

-- A trade of the bot that is closed with a result.
pub record IsFinalized (bot : ℕ) (r : TradeRow) (pnl : ℤ) : Type 0 where
  pub bot_id : r.bot_id ≡ bot
  pub status : r.status ≡ closed
  pub realized_pnl : r.realized_pnl ≡ some pnl

-- A later close comes first, and of two closes at one time the one with the greater key.
abbrev pub Before : Ranked → Ranked → Type 0
Before a b =
    (b.row.closed_at < a.row.closed_at) ⊎ ((a.row.closed_at ≡ b.row.closed_at) × (b.rank ≤ a.rank))

unfoldable pub NewestFirst : List Ranked → Type 0
NewestFirst [] = Unit {0}
NewestFirst (a ∷ rest) = All (Before a) rest × NewestFirst rest

abbrev pub ranked_of : TradeRow → ℤ → Ranked
ranked_of r pnl = record {
  rank = r.id;
  row = record { realized_pnl = pnl; closed_at = r.closed_at };
}

-- What the query says of a table, by the sequence of its closed trades.
pub record IsPeakAndCurrent (bot : ℕ) (table : List TradeRow) (peak current : ℤ) : Type 0 where
  pub ranked : List Ranked
  pub newest_first : NewestFirst ranked
  pub complete :
      (r : TradeRow) (pnl : ℤ)
      → Memᴰ r table
      → IsFinalized bot r pnl
      → Memᴰ (ranked_of r pnl) ranked
  pub sound :
      (a : Ranked)
      → Memᴰ a ranked
      → (r : TradeRow) × (pnl : ℤ) × Memᴰ r table × IsFinalized bot r pnl × (a ≡ ranked_of r pnl)
  pub total : current ≡ sum_realized_pnl_since bot 0 table
  pub latest : current ≡ sum_pnl (rows_of ranked)
  pub bounds : (n : ℕ) → n < length (rows_of ranked) → sum_pnl (drop n (rows_of ranked)) ≤ℤ peak
  pub attained :
      ((ranked ≡ []) × (peak ≡ pos 0))
      ⊎ ((m : ℕ) × (m < length (rows_of ranked)) × (sum_pnl (drop m (rows_of ranked)) ≡ peak))

finalized-IsFinalized :
    (bot : ℕ) (r : TradeRow) (pnl : ℤ) → finalized bot r ≡ some pnl → IsFinalized bot r pnl
unfolding finalized
finalized-IsFinalized bot r pnl h = record {
  bot_id = ground (arith, h);
  status = ground (arith, h);
  realized_pnl = ground (arith, h);
}

IsFinalized-finalized :
    (bot : ℕ) (r : TradeRow) (pnl : ℤ) → IsFinalized bot r pnl → finalized bot r ≡ some pnl
unfolding finalized
IsFinalized-finalized bot r pnl f = rw f.status (ground (arith, f.bot_id, f.realized_pnl))

newer-Before : (a b : Ranked) → newer a b ≡ true → Before a b
unfolding newer
newer-Before a b h = ground (arith, h)

older-Before : (a b : Ranked) → newer a b ≡ false → Before b a
unfolding newer
older-Before a b h = ground (arith, h)

Before-trans : (a b c : Ranked) → Before a b → Before b c → Before a c
Before-trans a b c h k = ground (arith, h, k)

All-Before : (a b : Ranked) (cs : List Ranked) → Before a b → All (Before b) cs → All (Before a) cs
All-Before a b [] h k = tt
All-Before a b (c ∷ cs) h (k, ks) = (Before-trans a b c h k, All-Before a b cs h ks)

All-insert :
    (b a : Ranked) (cs : List Ranked)
    → Before b a
    → All (Before b) cs
    → All (Before b) (insert_newest a cs)
unfolding insert_newest
All-insert b a [] h k = (h, tt)
All-insert b a (c ∷ cs) h (k, ks) =
    if_cases (All (Before b)) (newer a c) (a ∷ (c ∷ cs)) (c ∷ insert_newest a cs)
      (λ e. (h, (k, ks))) (λ e. (k, All-insert b a cs h ks))

NewestFirst-insert :
    (a : Ranked) (bs : List Ranked) → NewestFirst bs → NewestFirst (insert_newest a bs)
unfolding insert_newest NewestFirst
NewestFirst-insert a [] h = (tt, tt)
NewestFirst-insert a (b ∷ bs) (h, hs) =
    if_cases NewestFirst (newer a b) (a ∷ (b ∷ bs)) (b ∷ insert_newest a bs)
      (λ e. let first = newer-Before a b e in ((first, All-Before a b bs first h), (h, hs)))
      (λ e. (All-insert b a bs (older-Before a b e) h, NewestFirst-insert a bs hs))

Memᴰ-insert : (c a : Ranked) (bs : List Ranked) → (c ≡ a) ⊎ Memᴰ c bs → Memᴰ c (insert_newest a bs)
unfolding insert_newest
Memᴰ-insert c a [] (inl e) = head e
Memᴰ-insert c a [] (inr m) = elim m [ ]
Memᴰ-insert c a (b ∷ bs) m =
    if_cases (Memᴰ c) (newer a b) (a ∷ (b ∷ bs)) (b ∷ insert_newest a bs)
      (λ e. elim m [ inl q ↦ head q | inr n ↦ tail n ])
      (λ e. elim m [
        | inl q ↦ tail (Memᴰ-insert c a bs (inl q))
        | inr n ↦ elim n [ head q ↦ head q | tail l ↦ tail (Memᴰ-insert c a bs (inr l)) ]
      ])

insert-Memᴰ : (c a : Ranked) (bs : List Ranked) → Memᴰ c (insert_newest a bs) → (c ≡ a) ⊎ Memᴰ c bs
unfolding insert_newest
insert-Memᴰ c a [] = λ m. elim m [ head e ↦ inl e | tail n ↦ elim n [ ] ]
insert-Memᴰ c a (b ∷ bs) =
    if_cases (λ l. Memᴰ c l → (c ≡ a) ⊎ Memᴰ c (b ∷ bs)) (newer a b) (a ∷ (b ∷ bs))
      (b ∷ insert_newest a bs) (λ e m. elim m [ head q ↦ inl q | tail n ↦ inr n ])
      (λ e m. elim m [
        | head q ↦ inr (head q)
        | tail n ↦ elim (insert-Memᴰ c a bs n) [ inl q ↦ inl q | inr l ↦ inr (tail l) ]
      ])

zero_left : (a : ℤ) → pos 0 +ℤ a ≡ a
zero_left a = eq_of_parts (pos 0 +ℤ a) a (omega (arith, +ℤ_parts (pos 0) a))

sum-insert :
    (a : Ranked) (bs : List Ranked)
    → sum_pnl (rows_of (insert_newest a bs)) ≡ a.row.realized_pnl +ℤ sum_pnl (rows_of bs)
unfolding insert_newest rows_of sum_pnl
sum-insert a [] = +ℤ_comm (pos 0) a.row.realized_pnl
sum-insert a (b ∷ bs) =
    if_cases (λ l. sum_pnl (rows_of l) ≡ a.row.realized_pnl +ℤ sum_pnl (rows_of (b ∷ bs)))
      (newer a b) (a ∷ (b ∷ bs)) (b ∷ insert_newest a bs)
      (λ e. +ℤ_comm (sum_pnl (rows_of (b ∷ bs))) a.row.realized_pnl)
      (λ e.
        ap (λ n. n +ℤ b.row.realized_pnl) (sum-insert a bs)
        ∙ +ℤ_assoc a.row.realized_pnl (sum_pnl (rows_of bs)) b.row.realized_pnl)

module _ (bot : ℕ) where
  sorted-NewestFirst : (table : List TradeRow) → NewestFirst (sorted_closed bot table)
  unfolding sorted_closed keep_finalized NewestFirst
  sorted-NewestFirst [] = tt
  sorted-NewestFirst (r ∷ rs) =
      elim (finalized bot r)
        as (λ o. NewestFirst (elim o [
          | none ↦ sorted_closed bot rs
          | some pnl ↦ insert_newest (ranked_of r pnl) (sorted_closed bot rs)
        ])) [
          | none ↦ sorted-NewestFirst rs
          | some pnl ↦
              NewestFirst-insert (ranked_of r pnl) (sorted_closed bot rs) (sorted-NewestFirst rs)
        ]

  kept :
      (r : TradeRow) (rest : List Ranked) (pnl : ℤ)
      → finalized bot r ≡ some pnl
      → keep_finalized bot r rest ≡ insert_newest (ranked_of r pnl) rest
  unfolding keep_finalized
  kept r rest pnl h = rw (keep_finalized, h) refl

  passed_over :
      (r : TradeRow) (rest : List Ranked)
      → finalized bot r ≡ none
      → keep_finalized bot r rest ≡ rest
  unfolding keep_finalized
  passed_over r rest h = rw (keep_finalized, h) refl

  sorted-complete :
      (table : List TradeRow) (r : TradeRow) (pnl : ℤ)
      → Memᴰ r table
      → IsFinalized bot r pnl
      → Memᴰ (ranked_of r pnl) (sorted_closed bot table)
  unfolding sorted_closed
  sorted-complete [] r pnl m f = elim m [ ]
  sorted-complete (q ∷ qs) r pnl (head e) f =
      rw
        (kept q (sorted_closed bot qs) pnl
          (ap (finalized bot) (sym e) ∙ IsFinalized-finalized bot r pnl f))
        (Memᴰ-insert (ranked_of r pnl) (ranked_of q pnl) (sorted_closed bot qs)
          (inl (ap (λ t. ranked_of t pnl) e)))
  sorted-complete (q ∷ qs) r pnl (tail m) f =
      let later = sorted-complete qs r pnl m f in
      elim (Option-cases (finalized bot q)) [
        | inl out ↦ rw (passed_over q (sorted_closed bot qs) out) later
        | inr (a, i) ↦
            rw (kept q (sorted_closed bot qs) a i)
              (Memᴰ-insert (ranked_of r pnl) (ranked_of q a) (sorted_closed bot qs) (inr later))
      ]

  -- The row of the table that a ranked trade stands for.
  abbrev pub Origin : List TradeRow → Ranked → Type 0
  Origin table a =
      (r : TradeRow) × (pnl : ℤ) × Memᴰ r table × IsFinalized bot r pnl × (a ≡ ranked_of r pnl)

  sorted_sound :
      (table : List TradeRow) (a : Ranked) → Memᴰ a (sorted_closed bot table) → Origin table a
  unfolding sorted_closed
  sorted_sound [] a m = elim m [ ]
  sorted_sound (q ∷ qs) a m = elim (Option-cases (finalized bot q)) [
    | inl out ↦
        let (r, pnl, n, f, e) =
          sorted_sound qs a (subst (Memᴰ a) (passed_over q (sorted_closed bot qs) out) m) in
        (r, pnl, tail n, f, e)
    | inr (p, i) ↦
        elim (insert-Memᴰ a (ranked_of q p) (sorted_closed bot qs)
          (subst (Memᴰ a) (kept q (sorted_closed bot qs) p i) m)) [
            | inl e ↦ (q, p, head refl, finalized-IsFinalized bot q p i, e)
            | inr n ↦ let (r, pnl, l, f, e) = sorted_sound qs a n in (r, pnl, tail l, f, e)
          ]
  ]

  amount-kept : (r : TradeRow) (pnl : ℤ) → finalized bot r ≡ some pnl → amount_since bot 0 r ≡ pnl
  unfolding amount_since
  amount-kept r pnl h = rw (amount_since, h, le→leb 0 r.closed_at (omega arith)) refl

  amount-passed : (r : TradeRow) → finalized bot r ≡ none → amount_since bot 0 r ≡ pos 0
  unfolding amount_since
  amount-passed r h = rw (amount_since, h) refl

  sorted-sum :
      (table : List TradeRow)
      → sum_pnl (rows_of (sorted_closed bot table)) ≡ sum_realized_pnl_since bot 0 table
  unfolding sorted_closed sum_realized_pnl_since rows_of sum_pnl
  sorted-sum [] = refl
  sorted-sum (r ∷ rs) =
      let older = sorted-sum rs in
      let since = sum_realized_pnl_since bot 0 rs in
      elim (Option-cases (finalized bot r)) [
        | inl out ↦
            ap (λ l. sum_pnl (rows_of l)) (passed_over r (sorted_closed bot rs) out)
            ∙ older
            ∙ sym (zero_left since)
            ∙ ap (λ a. a +ℤ since) (sym (amount-passed r out))
        | inr (p, i) ↦
            ap (λ l. sum_pnl (rows_of l)) (kept r (sorted_closed bot rs) p i)
            ∙ sum-insert (ranked_of r p) (sorted_closed bot rs)
            ∙ ap (λ a. p +ℤ a) older
            ∙ ap (λ a. a +ℤ since) (sym (amount-kept r p i))
      ]

empty_rows : (rest : List Ranked) → rows_of rest ≡ [] → rest ≡ []
unfolding rows_of
empty_rows [] h = refl
empty_rows (a ∷ rest) h = cc h

peak_reached :
    (rows : List ClosedTradeRow)
    → ((rows ≡ []) × (coalesce (pnl_curve rows).peak ≡ pos 0))
      ⊎ ((m : ℕ) × (m < length rows) × (sum_pnl (drop m rows) ≡ coalesce (pnl_curve rows).peak))
unfolding coalesce pnl_curve
peak_reached [] = inl (refl, refl)
peak_reached (r ∷ rs) = inr (peak_attained (r ∷ rs) _ refl)

peak_above :
    (rows : List ClosedTradeRow) (n : ℕ)
    → n < length rows
    → sum_pnl (drop n rows) ≤ℤ coalesce (pnl_curve rows).peak
unfolding coalesce
peak_above rows n h = let (p, e, b) = peak_bound rows n h in rw e b

-- For every table of trades the query returns as the current result the sum over the closed trades of
-- the bot that have a result, and as the peak the greatest of the running sums over these trades in
-- the order of their closes, the key deciding between closes at one time: the peak bounds every running
-- sum and is one of them, and is zero without such a trade.
pub select_pnl_peak_and_current-IsPeakAndCurrent :
    (bot : ℕ) (table : List TradeRow)
    → let result = select_pnl_peak_and_current bot table in
      IsPeakAndCurrent bot table result.0 result.1
unfolding select_pnl_peak_and_current closed_trades
select_pnl_peak_and_current-IsPeakAndCurrent bot table =
    let ranked = sorted_closed bot table in
    let rows = rows_of ranked in
    record {
      ranked = ranked;
      newest_first = sorted-NewestFirst bot table;
      complete = sorted-complete bot table;
      sound = sorted_sound bot table;
      total = current-sum rows ∙ sorted-sum bot table;
      latest = current-sum rows;
      bounds = peak_above rows;
      attained = elim (peak_reached rows) [
        | inl (none_there, zero_peak) ↦ inl (empty_rows ranked none_there, zero_peak)
        | inr reached ↦ inr reached
      ];
    }
