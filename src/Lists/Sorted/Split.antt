-- ===== src/Lists/Sorted/Split.antt =====
-- Where the loops of Sorted come to a halt.
use tl2_cpp.Common.{
  ℕ, zero, suc, ◌<◌, ◌≤◌, ◌≡◌, refl, ap, ◌∙◌, Bool, true, false, ◌||◌, List, [], ◌∷◌, ◌++◌, ◌==◌,
  ltb, leb, if◌then◌else◌, length, arith, Bool-cases, inl, inr,
}
use tl2_cpp.Common.Res.{ok}
use tl2_cpp.Heap.{Heap}
use tl2_cpp.Heap.Cells.{head_of, Cells, at-live}
use tl2_cpp.Lists.Sorted.{Entry, scan, seek}
use tl2_cpp.Lists.Sorted.Keys.{Above, Ascending, has_key, insert_key, erase_key, has_key-Above}

or-low : (x k : ℕ) (b : Bool) → ltb x k ≡ true → b ≡ ((x == k) || b)
or-low x k b lo = ground arith

or-none : (a b : Bool) → b ≡ false → a ≡ (a || b)
or-none a b h = ground arith

not_lt : (x k : ℕ) → ltb x k ≡ false → k ≤ x
not_lt x k h = ground arith

module _ {T : Type 0} where
  -- All keys are below `k`.
  abbrev pub Low : ℕ → List (ℕ × Entry T) → Type 0
  Low k [] = Unit
  Low k ((p, d) ∷ xs) = (d.key < k) × Low k xs

  -- Some key is at least `k`.
  abbrev pub reaches : ℕ → List (ℕ × Entry T) → Bool
  reaches k [] = false
  reaches k ((p, d) ∷ xs) = leb k d.key || reaches k xs

  -- `curr` is the first cell whose key is at least `k`, and `pred` the one before.
  pub record Split (k : ℕ) (ws : List (ℕ × Entry T)) (pred curr : ℕ) : Type 0 where
    pub front : List (ℕ × Entry T)
    pub before : Entry T
    pub found : Entry T
    pub back : List (ℕ × Entry T)
    pub whole : ws ≡ front ++ (pred, before) ∷ (curr, found) ∷ back
    pub low : Low k front
    pub below : before.key < k
    pub high : k ≤ found.key

  pub scan-Split :
      (fuel stop k p : ℕ) (e : Entry T) (h : Heap (Entry T)) (ys : List (ℕ × Entry T))
      → Cells stop h ys
      → length ys ≤ fuel
      → e.key < k
      → reaches k ys ≡ true
      → (pred curr : ℕ) × (scan fuel h k p (head_of stop ys) ≡ ok (pred, curr))
        × Split k ((p, e) ∷ ys) pred curr
  unfolding scan
  scan-Split fuel stop k p e h [] c enough lt r = cc
  scan-Split zero stop k p e h ((q, d) ∷ ys) c enough lt r = absurd (omega (arith, enough))
  scan-Split (suc fuel) stop k p e h ((q, d) ∷ ys) c enough lt r =
      let here = at-live h q d (head_of stop ys) c.0 c.2 in
      elim (Bool-cases (ltb d.key k)) [
        | inl lo ↦
            let (pred, curr, done, s) =
              scan-Split fuel stop k q d h ys c.3 (omega (arith, enough)) (ground arith)
                (ground (arith, r)) in
            (
              pred,
              curr,
              rw here
                  (ap (λ b. if b then scan fuel h k q (head_of stop ys) else ok (p, q)) lo ∙ done),
              record {
                front = (p, e) ∷ s.front;
                before = s.before;
                found = s.found;
                back = s.back;
                whole = ap (λ xs. (p, e) ∷ xs) s.whole;
                low = (lt, s.low);
                below = s.below;
                high = s.high;
              },
            )
        | inr hi ↦ (
          p,
          q,
          rw here (ap (λ b. if b then scan fuel h k q (head_of stop ys) else ok (p, q)) hi),
          record {
            front = [];
            before = e;
            found = d;
            back = ys;
            whole = refl;
            low = tt;
            below = lt;
            high = ground arith;
          },
        )
      ]

  -- In ascending cells the loop of `contains` answers whether the key is there.
  pub seek-has_key :
      (fuel stop k : ℕ) (h : Heap (Entry T)) (b : ℕ) (ys : List (ℕ × Entry T))
      → Cells stop h ys
      → length ys ≤ fuel
      → Above b ys
      → reaches k ys ≡ true
      → seek fuel h k (head_of stop ys) ≡ ok (has_key k ys)
  unfolding seek
  seek-has_key fuel stop k h b [] c enough s r = cc
  seek-has_key zero stop k h b ((q, d) ∷ ys) c enough s r = absurd (omega (arith, enough))
  seek-has_key (suc fuel) stop k h b ((q, d) ∷ ys) c enough s r =
      let here = at-live h q d (head_of stop ys) c.0 c.2 in
      elim (Bool-cases (ltb d.key k)) [
        | inl lo ↦ rw here (
            ap (λ b. if b then seek fuel h k (head_of stop ys) else ok (d.key == k)) lo
            ∙ seek-has_key fuel stop k h d.key ys c.3 (omega (arith, enough)) s.1
                (ground (arith, r))
            ∙ ap ok (or-low d.key k (has_key k ys) lo))
        | inr hi ↦ rw here (
            ap (λ b. if b then seek fuel h k (head_of stop ys) else ok (d.key == k)) hi
            ∙ ap ok (
                or-none (d.key == k) (has_key k ys)
                  (has_key-Above k d.key ys s.1 (not_lt d.key k hi))))
      ]

  pub insert_key-front :
      (p : ℕ) (x : Entry T) (ls bs : List (ℕ × Entry T)) (r q : ℕ) (e d : Entry T)
      → Low x.key ls
      → e.key < x.key
      → x.key ≤ d.key
      → insert_key p x (ls ++ (r, e) ∷ (q, d) ∷ bs) ≡ ls ++ (r, e) ∷ (p, x) ∷ (q, d) ∷ bs
  unfolding insert_key
  insert_key-front p x [] bs r q e d low below high = ground arith
  insert_key-front p x ((o, c) ∷ ls) bs r q e d low below high =
      ground (arith, low.0, insert_key-front p x ls bs r q e d low.1 below high)

  pub erase_key-front :
      (k : ℕ) (ls bs : List (ℕ × Entry T)) (r q : ℕ) (e d : Entry T)
      → Low k ls
      → e.key < k
      → (d.key == k) ≡ true
      → erase_key k (ls ++ (r, e) ∷ (q, d) ∷ bs) ≡ ls ++ (r, e) ∷ bs
  unfolding erase_key
  erase_key-front k [] bs r q e d low below hit = ground arith
  erase_key-front k ((o, c) ∷ ls) bs r q e d low below hit =
      ground (arith, low.0, erase_key-front k ls bs r q e d low.1 below hit)

  Above-Ascending : (b : ℕ) (xs : List (ℕ × Entry T)) → Above b xs → Ascending xs
  Above-Ascending b [] s = tt
  Above-Ascending b ((p, d) ∷ xs) s = s.1

  pub has_key-front :
      (k : ℕ) (ls bs : List (ℕ × Entry T)) (r q : ℕ) (e d : Entry T)
      → Low k ls
      → e.key < k
      → k ≤ d.key
      → Ascending (ls ++ (r, e) ∷ (q, d) ∷ bs)
      → has_key k (ls ++ (r, e) ∷ (q, d) ∷ bs) ≡ (d.key == k)
  has_key-front k [] bs r q e d low below high s = ground (arith, has_key-Above k d.key bs s.1 high)
  has_key-front k ((o, c) ∷ ls) bs r q e d low below high s =
      ground
        (arith, low.0, has_key-front k ls bs r q e d low.1 below high (Above-Ascending c.key _ s))
