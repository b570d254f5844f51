-- ===== src/Dedup.antt =====
-- packages/bus/dedup.py: the ring of the keys that a consumer has seen. A key is a number; the order
-- requests are keyed by bot and signal, and the fills by the exchange's key of the execution.
pub mod Window
mod Examples
use scalper_v.Base.{
  ℕ, ◌+◌, Bool, true, false, List, [], ◌∷◌, ◌++◌, ◌==◌, ◌||◌, ltb, length, drop, if◌then◌else◌,
}

abbrev pub contains : ℕ → List ℕ → Bool
contains k [] = false
contains k (x ∷ xs) = (x == k) || contains k xs

-- A fresh key goes last, and past the capacity the first one goes.
unfoldable pub remember : ℕ → ℕ → List ℕ → List ℕ
remember capacity k seen =
    let seen' = seen ++ (k ∷ []) in if ltb capacity (length seen') then drop 1 seen' else seen'

-- `consume` up to the handler: whether that is called, and the ring.
unfoldable pub consume : ℕ → ℕ → List ℕ → Bool × List ℕ
unfolding remember
consume capacity k seen =
    if contains k seen then (false, seen) else (true, remember capacity k seen)

-- The ring after the messages with these keys, and how many of them were handled.
unfoldable pub consume_all : ℕ → List ℕ → List ℕ → ℕ × List ℕ
unfolding consume
consume_all capacity [] seen = (0, seen)
consume_all capacity (k ∷ ks) seen =
    let (fresh, seen') = consume capacity k seen in
    let (handled, end) = consume_all capacity ks seen' in
    (if fresh then handled + 1 else handled, end)
