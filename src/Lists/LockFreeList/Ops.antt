-- ===== src/Lists/LockFreeList/Ops.antt =====
-- `LockFreeList` as a set of keys, whose operations meet nodes that others have marked.
use tl2_cpp.Common.{
  ℕ, suc, ◌%◌, ◌≤◌, ◌≡◌, ◌≢◌, refl, sym, ap, subst, ◌∙◌, true, false, not, ◌&&◌, ◌||◌, none, some,
  ◌∷◌, ◌++◌, ◌==◌, length, arith, Bool-cases, inl, inr, eq_of_==,
}
use tl2_cpp.Common.Res.{ok}
use tl2_cpp.Heap.{Heap, null}
use tl2_cpp.Heap.Cells.{head_of, has-fresh, middle}
use tl2_cpp.Lists.Sorted.{Entry, entry}
use tl2_cpp.Lists.Sorted.Ends.{IsInner}
use tl2_cpp.Lists.LockFreeList.{LockFreeList, add, remove}
use tl2_cpp.Lists.LockFreeList.Marked.{view, at-view, get-view, unpacked}
use tl2_cpp.Lists.LockFreeList.Locate.{has_live}
use tl2_cpp.Lists.LockFreeList.Set.{IsMarked, locate-Located}
use tl2_cpp.Lists.LockFreeList.Keys.{Marks, has_live-insert, live-stop, has_live-erase}
use tl2_cpp.Lists.LockFreeList.Change.{insert-IsMarked, erase-IsMarked}

module _ {T : Type 0} where
  -- The list after `add` and after `remove` of a key.
  pub record Added (l : LockFreeList) (key : ℕ) (ws : Marks T) (h' : Heap (Entry T)) : Type 0 where
    pub cells : Marks T
    pub marked : IsMarked l h' cells
    pub members : (j : ℕ) → has_live j cells ≡ ((key == j) || has_live j ws)

  pub record Removed (l : LockFreeList) (key : ℕ) (ws : Marks T) (h' : Heap (Entry T))
      : Type 0 where
    pub cells : Marks T
    pub marked : IsMarked l h' cells
    pub members : (j : ℕ) → has_live j cells ≡ (not (key == j) && has_live j ws)

module _ {T : Type 0} where
  present :
      (key j : ℕ) (ws : Marks T)
      → has_live key ws ≡ true
      → has_live j ws ≡ ((key == j) || has_live j ws)
  present key j ws i = elim (Bool-cases (key == j)) [
    | inl e ↦ rw e (sym (ap (λ a. has_live a ws) (eq_of_== key j e)) ∙ i)
    | inr o ↦ rw o refl
  ]

  missing :
      (key j : ℕ) (ws : Marks T)
      → has_live key ws ≡ false
      → has_live j ws ≡ (not (key == j) && has_live j ws)
  missing key j ws i = elim (Bool-cases (key == j)) [
    | inl e ↦ rw e (sym (ap (λ a. has_live a ws) (eq_of_== key j e)) ∙ i)
    | inr o ↦ rw o refl
  ]

module _ {T : Type 0} (hash : T → ℕ) (round k : ℕ) (x : T) (l : LockFreeList) (h : Heap (Entry T))
    (ws : Marks T) (s : IsMarked l h ws) (inner : IsInner (hash x)) (enough : length ws ≤ k) where
  -- `add` of a list that other threads leave alone, with marked nodes or without: it adds the key and
  -- answers whether it was new. The new node is at an even address that was free.
  add-Added :
      (p : ℕ → ℕ)
      → p round ≢ null
      → p round % 2 ≡ 0
      → h (p round) ≡ none
      → (h' : Heap (Entry T)) × (add hash (suc round) k p x l h
          ≡ ok (not (has_live (hash x) ws), h'))
        × Added l (hash x) ws h'
  unfolding add
  add-Added p ne even fresh =
      let (pred, curr, h₁, found, r) =
        locate-Located round k (hash x) l h ws s inner.0 inner.1 enough in
      let t = r.place in
      let m = subst (IsMarked l h₁) t.whole r.marked in
      let two =
        middle l.tail (view h₁) t.front
          ((pred, (t.before, false)) ∷ (curr, (t.found, false)) ∷ t.back) m.cells in
      let (raw, look) = at-view h₁ curr t.found false (head_of l.tail t.back) two.3.0 two.3.2 in
      let known : has_live (hash x) ws ≡ (t.found.key == hash x) =
        sym (r.members (hash x))
        ∙ ap (has_live (hash x)) t.whole
        ∙ live-stop (hash x) pred curr t.before t.found false t.front t.back m.order t.below
            t.high in
      elim (Bool-cases (t.found.key == hash x)) [
        | inl here ↦ (
          h₁,
          rw (found, look, known, here) refl,
          record {
            cells = r.kept;
            marked = r.marked;
            members = λ j. r.members j ∙ present (hash x) j ws (known ∙ here);
          },
        )
        | inr absent ↦
            let free =
              r.same (p round) (has-fresh l.tail (p round) (view h) ws s.cells (ap unpacked fresh))
              ∙ fresh in
            let (h₂, done, m') =
              insert-IsMarked l h₁ (hash x) pred curr t.before t.found t.front t.back m t.below
                (p round) (entry (some x) (hash x)) ne even free refl
                (ground (arith, t.high, absent)) in
            (
              h₂,
              rw (found, look, known, absent, done) refl,
              record {
                cells =
                    t.front
                    ++ (pred, (t.before, false))
                      ∷ (p round, (entry (some x) (hash x), false))
                      ∷ (curr, (t.found, false))
                      ∷ t.back;
                marked = m';
                members = λ j.
                    has_live-insert j (pred, (t.before, false)) (p round) (entry (some x) (hash x))
                      t.front ((curr, (t.found, false)) ∷ t.back)
                    ∙ ap (λ b. (hash x == j) || b) (sym (ap (has_live j) t.whole) ∙ r.members j);
              },
            )
      ]

  -- `remove` of a list that other threads leave alone, with marked nodes or without: it takes the key
  -- out and answers whether it was there.
  remove-Removed :
      (h' : Heap (Entry T)) × (remove hash (suc round) k x l h ≡ ok (has_live (hash x) ws, h'))
      × Removed l (hash x) ws h'
  unfolding remove
  remove-Removed =
      let (pred, curr, h₁, found, r) =
        locate-Located round k (hash x) l h ws s inner.0 inner.1 enough in
      let t = r.place in
      let m = subst (IsMarked l h₁) t.whole r.marked in
      let two =
        middle l.tail (view h₁) t.front
          ((pred, (t.before, false)) ∷ (curr, (t.found, false)) ∷ t.back) m.cells in
      let (raw, look) = at-view h₁ curr t.found false (head_of l.tail t.back) two.3.0 two.3.2 in
      let see = get-view h₁ curr t.found false (head_of l.tail t.back) two.3.0 two.3.2 in
      let known : has_live (hash x) ws ≡ (t.found.key == hash x) =
        sym (r.members (hash x))
        ∙ ap (has_live (hash x)) t.whole
        ∙ live-stop (hash x) pred curr t.before t.found false t.front t.back m.order t.below
            t.high in
      elim (Bool-cases (t.found.key == hash x)) [
        | inl here ↦
            let same = eq_of_== t.found.key (hash x) here in
            let (h₂, h₃, marks, done, m') =
              erase-IsMarked l h₁ (hash x) pred curr t.before t.found t.front t.back m t.below same
                inner.1 in
            (
              h₃,
              rw (found, look, known, here) (rw (see, marks, done) refl),
              record {
                cells = t.front ++ (pred, (t.before, false)) ∷ t.back;
                marked = m';
                members = λ j.
                    has_live-erase j (hash x) pred curr t.before t.found false t.front t.back
                      m.order t.below same
                    ∙ ap (λ b. not (hash x == j) && b)
                        (sym (ap (has_live j) t.whole) ∙ r.members j);
              },
            )
        | inr absent ↦ (
          h₁,
          rw (found, look, known, absent) (rw see refl),
          record {
            cells = r.kept;
            marked = r.marked;
            members = λ j. r.members j ∙ missing (hash x) j ws (known ∙ absent);
          },
        )
      ]

  -- On a list that other threads leave alone, which may have nodes that are marked and still linked,
  -- with an inner key for the item, fuel for all nodes, and a free even address for a new node: `add`
  -- adds the key and answers whether it was new, `remove` takes the key out and answers whether it
  -- was there. Both return in their first round.
  pub lockfree-ops :
      (p : ℕ → ℕ)
      → p round ≢ null
      → p round % 2 ≡ 0
      → h (p round) ≡ none
      → ((h' : Heap (Entry T)) × (add hash (suc round) k p x l h
            ≡ ok (not (has_live (hash x) ws), h'))
          × Added l (hash x) ws h')
        × ((h' : Heap (Entry T)) × (remove hash (suc round) k x l h ≡ ok (has_live (hash x) ws, h'))
            × Removed l (hash x) ws h')
  lockfree-ops p ne even fresh = (add-Added p ne even fresh, remove-Removed)
