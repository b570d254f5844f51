-- ===== src/Outbox/Pending.antt =====
-- packages/outbox/queries.py: which rows `select_pending_outbox_events` returns.
use scalper_v.Base.{
  false, arith, ℕ, zero, suc, ◌+◌, ◌*◌, ◌^◌, ◌≤◌, ◌↔◌, ◌==◌, Bool, ◌&&◌, Option, none, some, ◌≡◌,
  refl, ◌⊎◌, inl, inr, true, List, [], ◌∷◌, All, Memᴰ, leb, leb→le, if_cases, subst, sym, ap,
  length, take,
}
use mathlib.Core.List.Memᴰ.{head, tail}
use scalper_v.Outbox.{
  OutboxEvent, OutboxRelaySettings, is_none, least, backoff, rested, is_due, insert_by_age,
  due_by_age, select_pending_outbox_events,
}

abbrev pub NoYounger : OutboxEvent → List OutboxEvent → Type 0
NoYounger r xs = All (λ x. x.created_at ≤ r.created_at) xs

-- The oldest first.
unfoldable pub ByAge : List OutboxEvent → Type 0
ByAge [] = Unit
ByAge (x ∷ xs) = All (λ y. x.created_at ≤ y.created_at) xs × ByAge xs

-- The last attempt is as long ago as the backoff asks: the base doubled with each attempt, or the cap.
abbrev pub Waited : OutboxRelaySettings → ℕ → OutboxEvent → Option ℕ → Type 0
Waited s now e none = Unit {0}
Waited s now e (some last) =
    (last + s.backoff_base * 2 ^ e.attempt_count ≤ now) ⊎ (last + s.backoff_cap ≤ now)

-- A row of the service that was neither published nor given up, and has waited long enough.
pub record IsDue (s : OutboxRelaySettings) (service now : ℕ) (e : OutboxEvent) : Type 0 where
  pub of_service : e.service ≡ service
  pub unpublished : e.published_at ≡ none
  pub unfailed : e.failed_at ≡ none
  pub waited : Waited s now e e.last_attempt_at

least-le : (a x y now : ℕ) → (leb (a + least x y) now ≡ true) ↔ ((a + x ≤ now) ⊎ (a + y ≤ now))
least-le a x y now = (λ h. ground (arith, h), λ h. ground (arith, h))

rested-waits :
    (s : OutboxRelaySettings) (now : ℕ) (e : OutboxEvent)
    → (rested s now e ≡ true) ↔ Waited s now e e.last_attempt_at
unfolding rested
rested-waits s now e =
    elim e.last_attempt_at
      as (λ o.
        (elim o [ none ↦ true | some last ↦ leb (last + backoff s e.attempt_count) now ] ≡ true)
        ↔ Waited s now e o) [
          | none ↦ (λ h. tt, λ h. refl)
          | some last ↦ least-le last (s.backoff_base * 2 ^ e.attempt_count) s.backoff_cap now
        ]

all_true :
    (a b c d : Bool)
    → a && (b && (c && d)) ≡ true
    → (a ≡ true) × (b ≡ true) × (c ≡ true) × (d ≡ true)
all_true true true true d h = (refl, refl, refl, h)
all_true false b c d h = cc h
all_true true false c d h = cc h
all_true true true false d h = cc h

is_none-none {ℓ} : {A : Type ℓ} (o : Option A) → is_none o ≡ true → o ≡ none
is_none-none none h = refl
is_none-none (some a) h = cc h

is_due-IsDue :
    (s : OutboxRelaySettings) (service now : ℕ) (e : OutboxEvent)
    → is_due s service now e ≡ true
    → IsDue s service now e
unfolding is_due
is_due-IsDue s service now e h =
    let (a, b, c, d) =
      all_true (e.service == service) (is_none e.published_at) (is_none e.failed_at)
        (rested s now e) h in
    record {
      of_service = ground (arith, a);
      unpublished = is_none-none e.published_at b;
      unfailed = is_none-none e.failed_at c;
      waited = (rested-waits s now e).0 d;
    }

IsDue-is_due :
    (s : OutboxRelaySettings) (service now : ℕ) (e : OutboxEvent)
    → IsDue s service now e
    → is_due s service now e ≡ true
unfolding is_due
IsDue-is_due s service now e d =
    let rests = (rested-waits s now e).1 d.waited in
    rw (d.unpublished, d.unfailed, rests) (ground (arith, d.of_service))

-- A batch of the rows: no more than the batch size, due rows of the table, the oldest first, and a due
-- row is left out only by a full batch of which no event is younger than it.
pub record IsOldest (s : OutboxRelaySettings) (service now : ℕ) (rows selected : List OutboxEvent)
    : Type 0 where
  pub bounded : length selected ≤ s.batch_size
  pub due : (e : OutboxEvent) → Memᴰ e selected → IsDue s service now e × Memᴰ e rows
  pub sorted : ByAge selected
  pub oldest :
      (r : OutboxEvent)
      → Memᴰ r rows
      → IsDue s service now r
      → Memᴰ r selected ⊎ ((length selected ≡ s.batch_size) × NoYounger r selected)

module _ (P : OutboxEvent → Type 0) where
  All-insert :
      (r : OutboxEvent) (xs : List OutboxEvent) → P r → All P xs → All P (insert_by_age r xs)
  unfolding insert_by_age
  All-insert r [] p ps = (p, tt)
  All-insert r (x ∷ xs) p (q, qs) =
      if_cases (All P) (leb r.created_at x.created_at) (r ∷ x ∷ xs) (x ∷ insert_by_age r xs)
        (λ e. (p, (q, qs))) (λ e. (q, All-insert r xs p qs))

  All-take : (n : ℕ) (xs : List OutboxEvent) → All P xs → All P (take n xs)
  All-take zero xs h = tt
  All-take (suc n) [] h = tt
  All-take (suc n) (x ∷ xs) (p, ps) = (p, All-take n xs ps)

  All-Memᴰ : (xs : List OutboxEvent) → All P xs → (e : OutboxEvent) → Memᴰ e xs → P e
  All-Memᴰ [] h e m = elim m [ ]
  All-Memᴰ (x ∷ xs) (p, ps) e (head q) = subst P (sym q) p
  All-Memᴰ (x ∷ xs) (p, ps) e (tail m) = All-Memᴰ xs ps e m

All-map :
    (P Q : OutboxEvent → Type 0)
    → ((x : OutboxEvent) → P x → Q x)
    → (xs : List OutboxEvent) → All P xs
    → All Q xs
All-map P Q f [] h = tt
All-map P Q f (x ∷ xs) (p, ps) = (f x p, All-map P Q f xs ps)

ByAge-insert : (r : OutboxEvent) (xs : List OutboxEvent) → ByAge xs → ByAge (insert_by_age r xs)
unfolding insert_by_age ByAge
ByAge-insert r [] h = (tt, tt)
ByAge-insert r (x ∷ xs) (h, hs) =
    if_cases ByAge (leb r.created_at x.created_at) (r ∷ x ∷ xs) (x ∷ insert_by_age r xs)
      (λ e. (
        (
          leb→le r.created_at x.created_at e,
          All-map (λ y. x.created_at ≤ y.created_at) (λ y. r.created_at ≤ y.created_at)
              (λ y l. ground (arith, e)) xs h,
        ),
        (h, hs),
      ))
      (λ e. (
        All-insert (λ y. x.created_at ≤ y.created_at) r xs (ground (arith, e)) h,
        ByAge-insert r xs hs,
      ))

Memᴰ-insert-self : (r : OutboxEvent) (xs : List OutboxEvent) → Memᴰ r (insert_by_age r xs)
unfolding insert_by_age
Memᴰ-insert-self r [] = head refl
Memᴰ-insert-self r (x ∷ xs) =
    if_cases (Memᴰ r) (leb r.created_at x.created_at) (r ∷ x ∷ xs) (x ∷ insert_by_age r xs)
      (λ e. head refl) (λ e. tail (Memᴰ-insert-self r xs))

Memᴰ-insert : (e r : OutboxEvent) (xs : List OutboxEvent) → Memᴰ e xs → Memᴰ e (insert_by_age r xs)
unfolding insert_by_age
Memᴰ-insert e r [] m = elim m [ ]
Memᴰ-insert e r (x ∷ xs) (head q) =
    if_cases (Memᴰ e) (leb r.created_at x.created_at) (r ∷ x ∷ xs) (x ∷ insert_by_age r xs)
      (λ i. tail (head q)) (λ i. head q)
Memᴰ-insert e r (x ∷ xs) (tail m) =
    if_cases (Memᴰ e) (leb r.created_at x.created_at) (r ∷ x ∷ xs) (x ∷ insert_by_age r xs)
      (λ i. tail (tail m)) (λ i. tail (Memᴰ-insert e r xs m))

-- The first ones of a list in order: who is left out is no older than they are.
taken :
    (n : ℕ) (xs : List OutboxEvent) (r : OutboxEvent)
    → ByAge xs
    → Memᴰ r xs
    → Memᴰ r (take n xs) ⊎ ((length (take n xs) ≡ n) × NoYounger r (take n xs))
unfolding ByAge
taken zero xs r h m = inr (refl, tt)
taken (suc n) [] r h m = elim m [ ]
taken (suc n) (x ∷ xs) r (h, hs) (head q) = inl (head q)
taken (suc n) (x ∷ xs) r (h, hs) (tail m) = elim (taken n xs r hs m) [
  | inl i ↦ inl (tail i)
  | inr (l, y) ↦ inr (ap suc l, (All-Memᴰ (λ y. x.created_at ≤ y.created_at) xs h r m, y))
]

ByAge-take : (n : ℕ) (xs : List OutboxEvent) → ByAge xs → ByAge (take n xs)
unfolding ByAge
ByAge-take zero xs h = tt
ByAge-take (suc n) [] h = tt
ByAge-take (suc n) (x ∷ xs) (h, hs) =
    (All-take (λ y. x.created_at ≤ y.created_at) n xs h, ByAge-take n xs hs)

module _ (s : OutboxRelaySettings) (service now : ℕ) where
  due_by_age-ByAge : (rows : List OutboxEvent) → ByAge (due_by_age s service now rows)
  unfolding due_by_age ByAge
  due_by_age-ByAge [] = tt
  due_by_age-ByAge (r ∷ rs) =
      if_cases ByAge (is_due s service now r) (insert_by_age r (due_by_age s service now rs))
        (due_by_age s service now rs)
        (λ e. ByAge-insert r (due_by_age s service now rs) (due_by_age-ByAge rs))
        (λ e. due_by_age-ByAge rs)

  -- A due row of the table `rows`.
  abbrev DueOf : List OutboxEvent → OutboxEvent → Type 0
  DueOf rows e = (is_due s service now e ≡ true) × Memᴰ e rows

  due_by_age-DueOf : (rows : List OutboxEvent) → All (DueOf rows) (due_by_age s service now rows)
  unfolding due_by_age
  due_by_age-DueOf [] = tt
  due_by_age-DueOf (r ∷ rs) =
      let later =
        All-map (DueOf rs) (DueOf (r ∷ rs)) (λ x (d, m). (d, tail m)) (due_by_age s service now rs)
          (due_by_age-DueOf rs) in
      if_cases (All (DueOf (r ∷ rs))) (is_due s service now r)
        (insert_by_age r (due_by_age s service now rs)) (due_by_age s service now rs)
        (λ e. All-insert (DueOf (r ∷ rs)) r (due_by_age s service now rs) (e, head refl) later)
        (λ e. later)

  due_by_age-all :
      (rows : List OutboxEvent) (r : OutboxEvent)
      → Memᴰ r rows
      → is_due s service now r ≡ true
      → Memᴰ r (due_by_age s service now rows)
  unfolding due_by_age
  due_by_age-all [] r m d = elim m [ ]
  due_by_age-all (x ∷ rs) r (head q) d = rw (subst (λ y. is_due s service now y ≡ true) q d) (
      subst (λ y. Memᴰ y (insert_by_age x (due_by_age s service now rs))) (sym q)
        (Memᴰ-insert-self x (due_by_age s service now rs)))
  due_by_age-all (x ∷ rs) r (tail m) d =
      if_cases (Memᴰ r) (is_due s service now x) (insert_by_age x (due_by_age s service now rs))
        (due_by_age s service now rs)
        (λ e. Memᴰ-insert r x (due_by_age s service now rs) (due_by_age-all rs r m d))
        (λ e. due_by_age-all rs r m d)

length-take : (n : ℕ) (xs : List OutboxEvent) → length (take n xs) ≤ n
length-take zero xs = omega arith
length-take (suc n) [] = omega arith
length-take (suc n) (x ∷ xs) = omega (arith, length-take n xs)

-- A batch has at most the batch size of rows, each a row of the table and of the service that was
-- neither published nor given up and whose last attempt, if any, is as long ago as the base doubled
-- with each attempt, or as the cap; the oldest come first. A due row that the batch leaves out is left
-- out because the batch is full, and no event of the batch is younger than it.
pub select_pending_outbox_events-IsOldest :
    (s : OutboxRelaySettings) (service now : ℕ) (rows : List OutboxEvent)
    → IsOldest s service now rows (select_pending_outbox_events s service now rows)
unfolding select_pending_outbox_events
select_pending_outbox_events-IsOldest s service now rows =
    let due = due_by_age s service now rows in
    let sorted = due_by_age-ByAge s service now rows in
    record {
      bounded = length-take s.batch_size due;
      due = λ e m.
          let (d, held) =
            All-Memᴰ (DueOf s service now rows) (take s.batch_size due)
              (All-take (DueOf s service now rows) s.batch_size due
                (due_by_age-DueOf s service now rows))
              e m in
          (is_due-IsDue s service now e d, held);
      sorted = ByAge-take s.batch_size due sorted;
      oldest = λ r m d.
          taken s.batch_size due r sorted
            (due_by_age-all s service now rows r m (IsDue-is_due s service now r d));
    }
