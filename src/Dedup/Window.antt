-- ===== src/Dedup/Window.antt =====
-- packages/bus/dedup.py: for how long a key is remembered.
use scalper_v.Base.{
  arith, ℕ, ◌+◌, ◌≤◌, ◌<◌, ◌≡◌, ◌≢◌, refl, sym, ap, subst, ◌∙◌, Bool, true, false, List, [], ◌∷◌,
  ◌++◌, All, ◌||◌, ltb, length, length-append, length-drop, drop, if_cases, if◌then◌else◌,
}
use scalper_v.Dedup.{contains, remember, consume, consume_all}

contains-append :
    (k : ℕ) (xs ys : List ℕ) → contains k (xs ++ ys) ≡ (contains k xs || contains k ys)
contains-append k [] ys = refl
contains-append k (x ∷ xs) ys = ground (arith, contains-append k xs ys)

-- The key stands once in the ring, and `n` keys after it.
record HasAfter (k n : ℕ) (ring : List ℕ) : Type 0 where
  before : List ℕ
  after : List ℕ
  split : ring ≡ before ++ (k ∷ after)
  before_free : contains k before ≡ false
  after_free : contains k after ≡ false
  count : length after ≡ n

-- The ring once `n` other keys have been taken after the key.
data Window (capacity k n : ℕ) (ring : List ℕ) : Type 0 where
  kept : n < capacity → length ring ≤ capacity → HasAfter k n ring → Window capacity k n ring
  gone : capacity ≤ n → length ring ≤ capacity → contains k ring ≡ false → Window capacity k n ring

contains-last : (k j : ℕ) (xs : List ℕ) → j ≢ k → contains k (xs ++ (j ∷ [])) ≡ contains k xs
contains-last k j xs h = ground (arith, h, contains-append k xs (j ∷ []))

append_assoc : (xs ys zs : List ℕ) → (xs ++ ys) ++ zs ≡ xs ++ (ys ++ zs)
append_assoc [] ys zs = refl
append_assoc (x ∷ xs) ys zs = ap (λ l. x ∷ l) (append_assoc xs ys zs)

HasAfter-last :
    (k n j : ℕ) (ring : List ℕ) → j ≢ k → HasAfter k n ring → HasAfter k (n + 1) (ring ++ (j ∷ []))
HasAfter-last k n j ring h x = record {
  before = x.before;
  after = x.after ++ (j ∷ []);
  split = ap (λ l. l ++ (j ∷ [])) x.split ∙ append_assoc x.before (k ∷ x.after) (j ∷ []);
  before_free = x.before_free;
  after_free = contains-last k j x.after h ∙ x.after_free;
  count = ground (arith, length-append x.after (j ∷ []), x.count);
}

-- The oldest key leaves the ring.
Window-drop :
    (capacity k n : ℕ) (ring : List ℕ)
    → length ring ≡ capacity + 1
    → n ≤ capacity
    → HasAfter k n ring
    → Window capacity k n (drop 1 ring)
Window-drop capacity k n ring l b x = by_before x.before x.before_free x.split
  where
    by_before :
        (xs : List ℕ)
        → contains k xs ≡ false
        → ring ≡ xs ++ (k ∷ x.after)
        → Window capacity k n (drop 1 ring)
    by_before [] f q =
        let m = ap length q in
        let c = x.count in
        subst (λ r. Window capacity k n (drop 1 r)) (sym q)
          (gone (omega (arith, m, l, c)) (omega (arith, m, l)) x.after_free)
    by_before (y ∷ ys) f q =
        let m = ap length q in
        let c = x.count in
        let a = length-append ys (k ∷ x.after) in
        subst (λ r. Window capacity k n (drop 1 r)) (sym q)
          (kept (omega (arith, m, l, c, a)) (omega (arith, m, l, a)) (record {
            before = ys;
            after = x.after;
            split = refl;
            before_free = ground (arith, f);
            after_free = x.after_free;
            count = x.count;
          }))

contains-drop : (k : ℕ) (ring : List ℕ) → contains k ring ≡ false → contains k (drop 1 ring) ≡ false
contains-drop k [] h = refl
contains-drop k (x ∷ xs) h = ground (arith, h)

-- A fresh key other than `k` is taken.
remember-Window :
    (capacity k n j : ℕ) (ring : List ℕ)
    → j ≢ k
    → Window capacity k n ring
    → Window capacity k (n + 1) (remember capacity j ring)
unfolding remember
remember-Window capacity k n j ring h (kept b l x) =
    let a = length-append ring (j ∷ []) in
    let more = HasAfter-last k n j ring h x in
    let c = x.count in
    let m = ap length x.split in
    let o = length-append x.before (k ∷ x.after) in
    if_cases (Window capacity k (n + 1)) (ltb capacity (length (ring ++ (j ∷ []))))
      (drop 1 (ring ++ (j ∷ []))) (ring ++ (j ∷ []))
      (λ e.
        Window-drop capacity k (n + 1) (ring ++ (j ∷ [])) (ground (arith, e, a, l))
          (omega (arith, b)) more)
      (λ e. kept (ground (arith, e, a, c, m, o)) (ground (arith, e)) more)
remember-Window capacity k n j ring h (gone b l x) =
    let a = length-append ring (j ∷ []) in
    let none_yet = contains-last k j ring h ∙ x in
    if_cases (Window capacity k (n + 1)) (ltb capacity (length (ring ++ (j ∷ []))))
      (drop 1 (ring ++ (j ∷ []))) (ring ++ (j ∷ []))
      (λ e.
        let d = length-drop 1 (ring ++ (j ∷ [])) in
        gone (omega (arith, b)) (omega (arith, a, d, l))
          (contains-drop k (ring ++ (j ∷ [])) none_yet))
      (λ e. gone (omega (arith, b)) (ground (arith, e)) none_yet)

-- A message with another key.
consume-Window :
    (capacity k n j : ℕ) (ring : List ℕ)
    → j ≢ k
    → Window capacity k n ring
    → Window capacity k
        (if (consume capacity j ring).0 then n + 1 else n)
        (consume capacity j ring).1
unfolding consume
consume-Window capacity k n j ring h w =
    if_cases (λ (z : Bool × List ℕ). Window capacity k (if z.0 then n + 1 else n) z.1)
      (contains j ring) (false, ring) (true, remember capacity j ring) (λ e. w)
      (λ e. remember-Window capacity k n j ring h w)

consume_all-Window :
    (capacity k n : ℕ) (ks ring : List ℕ)
    → All (λ j. j ≢ k) ks
    → Window capacity k n ring
    → Window capacity k (n + (consume_all capacity ks ring).0) (consume_all capacity ks ring).1
unfolding consume_all
consume_all-Window capacity k n [] ring h w = subst (λ m. Window capacity k m ring) (omega arith) w
consume_all-Window capacity k n (j ∷ ks) ring (h, hs) w =
    let (fresh, seen) = consume capacity j ring in
    let (handled, end) = consume_all capacity ks seen in
    subst (λ m. Window capacity k m end)
      (if_cases (λ m. m + handled ≡ n + (if fresh then handled + 1 else handled)) fresh (n + 1) n
        (λ e. rw e (omega arith)) (λ e. rw e refl))
      (consume_all-Window capacity k (if fresh then n + 1 else n) ks seen hs
        (consume-Window capacity k n j ring h w))

fresh-Window :
    (capacity k : ℕ) (ring : List ℕ)
    → 0 < capacity
    → length ring ≤ capacity
    → contains k ring ≡ false
    → Window capacity k 0 (remember capacity k ring)
unfolding remember
fresh-Window capacity k ring p l f =
    let a = length-append ring (k ∷ []) in
    let x : HasAfter k 0 (ring ++ (k ∷ [])) = record {
      before = ring;
      after = [];
      split = refl;
      before_free = f;
      after_free = refl;
      count = refl;
    } in
    if_cases (Window capacity k 0) (ltb capacity (length (ring ++ (k ∷ []))))
      (drop 1 (ring ++ (k ∷ []))) (ring ++ (k ∷ []))
      (λ e. Window-drop capacity k 0 (ring ++ (k ∷ [])) (ground (arith, e, a, l)) (omega arith) x)
      (λ e. kept p (ground (arith, e)) x)

Window-contains :
    (capacity k n : ℕ) (ring : List ℕ) → Window capacity k n ring → contains k ring ≡ ltb n capacity
Window-contains capacity k n ring (kept b l x) =
    let a = contains-append k x.before (k ∷ x.after) in
    ap (contains k) x.split ∙ ground (arith, a, b)
Window-contains capacity k n ring (gone b l x) = ground (arith, b, x)

-- A key that was handled is dropped exactly until as many other keys as the ring's capacity have
-- been handled since: duplicates of others do not wear it out. The key was fresh, the ring held at
-- most its capacity, which is not 0, and the messages since have other keys.
pub consume-remembers :
    (capacity k : ℕ) (ring ks : List ℕ)
    → 0 < capacity
    → length ring ≤ capacity
    → contains k ring ≡ false
    → All (λ j. j ≢ k) ks
    → contains k (consume_all capacity ks (consume capacity k ring).1).1
      ≡ ltb (consume_all capacity ks (consume capacity k ring).1).0 capacity
unfolding consume
consume-remembers capacity k ring ks p l f h = rw f (
    Window-contains capacity k (consume_all capacity ks (remember capacity k ring)).0
      (consume_all capacity ks (remember capacity k ring)).1
      (subst (λ m. Window capacity k m (consume_all capacity ks (remember capacity k ring)).1)
        (omega arith)
        (consume_all-Window capacity k 0 ks (remember capacity k ring) h
          (fresh-Window capacity k ring p l f))))
