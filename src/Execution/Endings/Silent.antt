-- ===== src/Execution/Endings/Silent.antt =====
-- services/execution/app/placement.py: publishes leave all but the messages alone.
use scalper_v.Base.{ℕ, ◌≡◌, refl, ◌∙◌, ◌==◌, Bool, true, false, if◌then◌else◌}
use scalper_v.Decimal.{Decimal}
use scalper_v.Execution.{Published, Desk, shadow_start}
use scalper_v.Execution.Emergency.{publish}
use scalper_v.Execution.Place.{Envelope}
use scalper_v.Execution.Handler.{start_shadow}

-- A publish leaves all but the messages alone.
unfoldable pub Silent : Desk → Desk → Type 0
Silent d d' = (d'.tables ≡ d.tables) × (d'.calls ≡ d.calls) × (d'.monitors ≡ d.monitors)

pub publish-Silent : (b : Bool) (m : Published) (d : Desk) → Silent d (publish b m d)
unfolding Silent
publish-Silent true m d = (refl, refl, refl)
publish-Silent false m d = (refl, refl, refl)

pub Silent-trans : (d d' d'' : Desk) → Silent d d' → Silent d' d'' → Silent d d''
unfolding Silent
Silent-trans d d' d'' (a, b, c) (x, y, z) = (x ∙ a, y ∙ b, z ∙ c)

if-Silent : (c : Bool) (d x y : Desk) → Silent d x → Silent d y → Silent d (if c then x else y)
if-Silent true d x y h i = h
if-Silent false d x y h i = i

pub start_shadow-Silent :
    (b : Bool) (v : Envelope) (k : ℕ) (l : Bool) (q : Decimal) (d : Desk)
    → Silent d (start_shadow b v k l q d)
unfolding Silent
start_shadow-Silent b v k l q d =
    if-Silent (v.shadow_variants == 0) d d (publish b (shadow_start k l q) d) (refl, refl, refl)
      (publish-Silent b (shadow_start k l q) d)

-- The three messages of a placement.
pub messages-Silent :
    (a b c : Bool) (v : Envelope) (m n : Published) (k : ℕ) (l : Bool) (q : Decimal) (d : Desk)
    → Silent d (start_shadow c v k l q (publish b n (publish a m d)))
messages-Silent a b c v m n k l q d =
    let d1 = publish a m d in
    let d2 = publish b n d1 in
    Silent-trans d d2 (start_shadow c v k l q d2)
      (Silent-trans d d1 d2 (publish-Silent a m d) (publish-Silent b n d1))
      (start_shadow-Silent c v k l q d2)
