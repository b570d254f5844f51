-- ===== src/Dedup/Examples.antt =====
-- The ring of seen keys at a concrete stream.
use scalper_v.Base.{arith, ◌≡◌, refl, [], ◌∷◌, ltb}
use scalper_v.Dedup.{contains, consume, consume_all}
use scalper_v.Dedup.Window.{consume-remembers}

-- Of the three messages after the key 5, one repeats a key.
consume-remembers_example :
    contains 5 (consume_all 2 (7 ∷ 7 ∷ 8 ∷ []) (consume 2 5 (1 ∷ 2 ∷ [])).1).1
    ≡ ltb (consume_all 2 (7 ∷ 7 ∷ 8 ∷ []) (consume 2 5 (1 ∷ 2 ∷ [])).1).0 2
consume-remembers_example =
    consume-remembers 2 5 (1 ∷ 2 ∷ []) (7 ∷ 7 ∷ 8 ∷ []) (omega arith) (omega arith) refl
      ((λ q. omega (arith, q)), ((λ q. omega (arith, q)), ((λ q. omega (arith, q)), tt)))

consume_all-two : (consume_all 2 (7 ∷ 7 ∷ 8 ∷ []) (consume 2 5 (1 ∷ 2 ∷ [])).1).0 ≡ 2
unfolding consume_all consume
consume_all-two = refl
