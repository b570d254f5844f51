-- ===== src/Scoring/Series.antt =====
-- packages/scoring/conditions/series.py: the conditions on the last samples of a feature, and on three
-- features.
use scalper_v.Base.{
  arith, ℕ, ◌-◌, ◌≤◌, ◌≡◌, ◌↔◌, refl, Bool, true, false, ◌&&◌, Option, none, some, List, [], ◌∷◌,
  All, ltb, length, drop, if◌then◌else◌, ◌==◌,
}
use scalper_v.Decimal.{Decimal, ◌<?◌}
use scalper_v.Decimal.Order.{<?-not, <?-≤?, ≤?_trans}
use scalper_v.Scoring.{
  FeatureValue, value_num, value_bool, value_json, feature_missing, feature_history_missing,
  feature_history_too_short, not_numeric, ErrorInfo, Evaluation, returned, RuleContext, Condition,
  external, feature_of, evaluate,
}

-- What `_check_history_window` returns.
pub data Window : Type 0 where
  samples : List Decimal → Window
  fault : ErrorInfo → Window

abbrev pub numbers : List FeatureValue → Option (List Decimal)
numbers [] = some []
numbers (value_num d ∷ rest) = elim (numbers rest) [ none ↦ none | some ds ↦ some (d ∷ ds) ]
numbers (value_bool b ∷ rest) = none
numbers (value_json ∷ rest) = none

abbrev pub history_at : List (ℕ × List FeatureValue) → ℕ → Option (List FeatureValue)
history_at [] ref = none
history_at ((key, values) ∷ rest) ref =
    let later = history_at rest ref in if key == ref then some values else later

abbrev numeric : Option (List Decimal) → Window
numeric none = fault (not_numeric none)
numeric (some ds) = samples ds

abbrev window_of : ℕ → ℕ → Option (List FeatureValue) → Window
window_of ref n none = fault (feature_history_missing ref)
window_of ref n (some history) =
    if ltb (length history) n
    then fault (feature_history_too_short (length history) n)
    else numeric (numbers (drop (length history - n) history))

unfoldable pub check_history_window : RuleContext → ℕ → Window
check_history_window ctx n =
    window_of ctx.feature_ref n (history_at ctx.feature_history ctx.feature_ref)

-- Each value stands so to the one before it.
abbrev pub in_order : (Decimal → Decimal → Bool) → List Decimal → Bool
in_order before [] = true
in_order before (x ∷ []) = true
in_order before (x ∷ y ∷ rest) = before x y && in_order before (y ∷ rest)

abbrev pub judge_window : (Decimal → Decimal → Bool) → Window → Evaluation
judge_window before (fault e) = returned false (some e)
judge_window before (samples ds) = returned (in_order before ds) none

unfoldable pub rising : ℕ → Condition
unfolding check_history_window ◌<?◌
rising n = external (some n) (λ ctx. judge_window (λ a b. a <? b) (check_history_window ctx n))

unfoldable pub falling : ℕ → Condition
unfolding check_history_window ◌<?◌
falling n = external (some n) (λ ctx. judge_window (λ a b. b <? a) (check_history_window ctx n))

-- The values of the references at the current snapshot.
abbrev stack_value : ℕ → Option FeatureValue → Window → Window
stack_value ref none rest = fault (feature_missing ref)
stack_value ref (some (value_bool b)) rest = fault (not_numeric (some ref))
stack_value ref (some value_json) rest = fault (not_numeric (some ref))
stack_value ref (some (value_num d)) (fault e) = fault e
stack_value ref (some (value_num d)) (samples ds) = samples (d ∷ ds)

abbrev pub stack : List (ℕ × FeatureValue) → List ℕ → Window
stack snapshot [] = samples []
stack snapshot (ref ∷ refs) =
    let rest = stack snapshot refs in stack_value ref (feature_of snapshot ref) rest

-- The three features; the first is the largest if `up`.
unfoldable pub ema_stack : ℕ → ℕ → ℕ → Bool → Condition
unfolding ◌<?◌
ema_stack a b c up = external none (λ ctx.
    judge_window (λ x y. if up then y <? x else x <? y)
      (stack ctx.feature_snapshot (a ∷ b ∷ c ∷ [])))

-- Every value is less than every later one.
unfoldable pub Ascends : List Decimal → Type 0
Ascends [] = Unit
Ascends (x ∷ xs) = All (λ y. (x <? y) ≡ true) xs × Ascends xs

<?_trans : (a b c : Decimal) → (a <? b) ≡ true → (b <? c) ≡ true → (a <? c) ≡ true
<?_trans a b c h i = ground (arith, <?-not a c, <?-not b c, <?-≤? a b h, ≤?_trans c a b)

below_every :
    (x y : Decimal) (ys : List Decimal)
    → (x <? y) ≡ true
    → All (λ z. (y <? z) ≡ true) ys
    → All (λ z. (x <? z) ≡ true) ys
below_every x y [] h a = tt
below_every x y (z ∷ zs) h (a, rest) = (<?_trans x y z h a, below_every x y zs h rest)

both : (b c : Bool) → (b && c) ≡ true → (b ≡ true) × (c ≡ true)
both true c h = (refl, h)
both false c h = ground (arith, h)

in_order-Ascends : (ds : List Decimal) → in_order (λ a b. a <? b) ds ≡ true → Ascends ds
unfolding Ascends
in_order-Ascends [] h = tt
in_order-Ascends (x ∷ []) h = (tt, tt)
in_order-Ascends (x ∷ y ∷ rest) h =
    let (p, q) = both (x <? y) (in_order (λ a b. a <? b) (y ∷ rest)) h in
    let (a, b) = in_order-Ascends (y ∷ rest) q in ((p, below_every x y rest p a), (a, b))

Ascends-in_order : (ds : List Decimal) → Ascends ds → in_order (λ a b. a <? b) ds ≡ true
unfolding Ascends
Ascends-in_order [] h = refl
Ascends-in_order (x ∷ []) h = refl
Ascends-in_order (x ∷ y ∷ rest) ((p, ps), h) = rw p (Ascends-in_order (y ∷ rest) h)

-- The last `n` samples of the feature's history are these numbers.
pub record LastSamples (n : ℕ) (ctx : RuleContext) (ds : List Decimal) : Type 0 where
  pub history : List FeatureValue
  pub located : history_at ctx.feature_history ctx.feature_ref ≡ some history
  pub enough : n ≤ length history
  pub last : numbers (drop (length history - n) history) ≡ some ds

judge_window-true :
    (before : Decimal → Decimal → Bool) (w : Window)
    → judge_window before w ≡ returned true none
    → (ds : List Decimal) × ((w ≡ samples ds) × (in_order before ds ≡ true))
judge_window-true before (fault e) h = ground (arith, h)
judge_window-true before (samples ds) h = (ds, (refl, ground (arith, h)))

numeric-samples :
    (o : Option (List Decimal)) (ds : List Decimal) → numeric o ≡ samples ds → o ≡ some ds
numeric-samples none ds h = ground (arith, h)
numeric-samples (some es) ds h = ground (arith, h)

not_short :
    (c : Bool) (e : ErrorInfo) (w : Window) (ds : List Decimal)
    → (if c then fault e else w) ≡ samples ds
    → (c ≡ false) × (w ≡ samples ds)
not_short true e w ds h = ground (arith, h)
not_short false e w ds h = (refl, h)

window-LastSamples :
    (n : ℕ) (ctx : RuleContext) (ds : List Decimal)
    → check_history_window ctx n ≡ samples ds
    → LastSamples n ctx ds
unfolding check_history_window
window-LastSamples n ctx ds h = of_history (history_at ctx.feature_history ctx.feature_ref) refl h
  where
    of_history :
        (o : Option (List FeatureValue))
        → history_at ctx.feature_history ctx.feature_ref ≡ o
        → window_of ctx.feature_ref n o ≡ samples ds
        → LastSamples n ctx ds
    of_history none q e = ground (arith, e)
    of_history (some history) q e =
        let (long, w) =
          not_short (ltb (length history) n) (feature_history_too_short (length history) n)
            (numeric (numbers (drop (length history - n) history))) ds e in
        record {
          history = history;
          located = q;
          enough = ground (arith, long);
          last = numeric-samples (numbers (drop (length history - n) history)) ds w;
        }

LastSamples-window :
    (n : ℕ) (ctx : RuleContext) (ds : List Decimal)
    → LastSamples n ctx ds
    → check_history_window ctx n ≡ samples ds
unfolding check_history_window
LastSamples-window n ctx ds h =
    let e : ltb (length h.history) n ≡ false = ground (arith, h.enough) in
    rw h.located (rw e (rw h.last refl))

-- A feature rises over `n` samples exactly if its history has as many, the last `n` are numbers, and
-- each of these is less than every later one.
pub rising-Ascends :
    (n : ℕ) (ctx : RuleContext)
    → evaluate (rising n) ctx ≡ returned true none
      ↔ ((ds : List Decimal) × (LastSamples n ctx ds × Ascends ds))
unfolding rising evaluate
rising-Ascends n ctx = (
  (λ h.
      let (ds, (w, o)) = judge_window-true (λ a b. a <? b) (check_history_window ctx n) h in
      (ds, (window-LastSamples n ctx ds w, in_order-Ascends ds o))),
  (λ (ds, (l, a)). rw (LastSamples-window n ctx ds l) (rw (Ascends-in_order ds a) refl)),
)
