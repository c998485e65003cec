-- ===== src/Lists/LinkedList/Locate.antt =====
-- Where `_locate` of `LinkedList` stops.
use tl2_cpp.Common.{
  ℕ, zero, suc, ◌<◌, ◌≡◌, refl, ap, ◌∙◌, Bool, true, false, ◌||◌, List, [], ◌∷◌, ◌++◌, ◌==◌,
  if◌then◌else◌, length, arith, Bool-cases, inl, inr, ◌⊎◌,
}
use tl2_cpp.Common.Res.{ok}
use tl2_cpp.Heap.{Heap, null}
use tl2_cpp.Heap.Cells.{head_of, has, Cells, at-live, apart}
use tl2_cpp.Lists.LinkedList.{locate_loop}
use tl2_cpp.Lists.LinkedList.Cells.{items}
use tl2_cpp.Lists.LinkedList.Search.{any}

module _ {T : Type 0} (matches : T → T → Bool) where
  -- The first match is taken out.
  unfoldable pub erase : T → List T → List T
  erase x [] = []
  erase x (y ∷ ys) = if matches y x then ys else y ∷ erase x ys

  -- The cell at `curr` is the first match, and the one at `pred` is before it.
  pub record Place (x : T) (ws : List (ℕ × T)) (pred curr : ℕ) : Type 0 where
    pub front : List (ℕ × T)
    pub before : T
    pub found : T
    pub back : List (ℕ × T)
    pub whole : ws ≡ front ++ (pred, before) ∷ (curr, found) ∷ back
    pub hit : matches found x ≡ true
    pub gone : erase x (items ws) ≡ items (front ++ (pred, before) ∷ back)

  pub locate_loop-Place :
      (k : ℕ) (h : Heap T) (x : T) (p : ℕ) (e : T) (ys : List (ℕ × T))
      → Cells null h ys
      → length ys < k
      → matches e x ≡ false
      → ((q : ℕ) × (locate_loop matches k h x p (head_of null ys) ≡ ok (q, null))
          × (any matches x (items ys) ≡ false))
        ⊎ ((pred curr : ℕ) × (locate_loop matches k h x p (head_of null ys) ≡ ok (pred, curr))
            × (any matches x (items ys) ≡ true)
            × Place x ((p, e) ∷ ys) pred curr)
  unfolding locate_loop erase
  locate_loop-Place zero h x p e ys c enough miss = absurd (omega (arith, enough))
  locate_loop-Place (suc k) h x p e [] c enough miss = inl (p, refl, refl)
  locate_loop-Place (suc k) h x p e ((q, y) ∷ ys) c enough miss =
      let live : (q == null) ≡ false = ground (arith, c.0) in
      let look = at-live h q y (head_of null ys) c.0 c.2 in
      let go =
        λ (b : Bool). if b then ok (p, q) else locate_loop matches k h x q (head_of null ys) in
      elim (Bool-cases (matches y x)) [
        | inl hit ↦ inr (
          p,
          q,
          rw live (rw look (ap go hit)),
          rw hit refl,
          record {
            front = [];
            before = e;
            found = y;
            back = ys;
            whole = refl;
            hit = hit;
            gone = rw (miss, hit) refl;
          },
        )
        | inr other ↦ elim (locate_loop-Place k h x q y ys c.3 (omega (arith, enough)) other) [
          | inl (r, done, none_there) ↦
              inl (r, rw live (rw look (ap go other ∙ done)), rw other none_there)
          | inr (pred, curr, done, there, s) ↦ inr (
            pred,
            curr,
            rw live (rw look (ap go other ∙ done)),
            rw other there,
            record {
              front = (p, e) ∷ s.front;
              before = s.before;
              found = s.found;
              back = s.back;
              whole = ap (λ ws. (p, e) ∷ ws) s.whole;
              hit = s.hit;
              gone = rw miss (ap (λ ws. e ∷ ws) s.gone);
            },
          )
        ]
      ]

  pub erase-none : (x : T) (ys : List T) → any matches x ys ≡ false → erase x ys ≡ ys
  unfolding erase
  erase-none x [] i = refl
  erase-none x (y ∷ ys) i = ground (arith, erase-none x ys, i)

module _ {T : Type 0} where
  pub length-out :
      (ls : List (ℕ × T)) (p q : ℕ) (d e : T) (bs : List (ℕ × T))
      → length (ls ++ (p, d) ∷ (q, e) ∷ bs) ≡ suc (length (ls ++ (p, d) ∷ bs))
  length-out [] p q d e bs = refl
  length-out (y ∷ ls) p q d e bs = ap suc (length-out ls p q d e bs)

  pub has-out :
      (a : ℕ) (ls : List (ℕ × T)) (p q : ℕ) (d e : T) (bs : List (ℕ × T))
      → has a (ls ++ (p, d) ∷ (q, e) ∷ bs) ≡ ((a == q) || has a (ls ++ (p, d) ∷ bs))
  has-out a [] p q d e bs = ground arith
  has-out a ((r, y) ∷ ls) p q d e bs = ground (arith, has-out a ls p q d e bs)

  pub head-apart :
      (h : Heap T) (ls : List (ℕ × T)) (p q : ℕ) (d e : T) (bs : List (ℕ × T))
      → Cells null h (ls ++ (p, d) ∷ (q, e) ∷ bs)
      → (q == head_of null (ls ++ (p, d) ∷ (q, e) ∷ bs)) ≡ false
  head-apart h [] p q d e bs c = ground (arith, c.1)
  head-apart h ((r, y) ∷ ls) p q d e bs c =
      ground (arith, apart null q h ((r, y) ∷ ls) ((p, d) ∷ (q, e) ∷ bs) c (ground arith))
