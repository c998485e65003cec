-- ===== src/Lists/OrderedLinkedList/Set.antt =====
-- `OrderedLinkedList` as a set of keys, and what its destructor frees.
use tl2_cpp.Common.{
  ℕ, suc, ◌<◌, ◌≡◌, ◌≢◌, refl, true, false, not, none, List, [], ◌∷◌, ◌++◌, ◌==◌, length, arith,
  update,
}
use tl2_cpp.Common.Res.{ok}
use tl2_cpp.Heap.{Heap, null}
use tl2_cpp.Heap.Cells.{head_of, has, has-append, middle, apart, delete-live}
use tl2_cpp.Lists.Sorted.{Entry, entry, int_min, int_max}
use tl2_cpp.Lists.Sorted.Keys.{has_key}
use tl2_cpp.Lists.Sorted.Ends.{IsInner, IsList, link-IsList, unlink-IsList, seek-head}
use tl2_cpp.Lists.Sorted.Results.{Added, Removed, Added-link, Removed-unlink}
use tl2_cpp.Lists.OrderedLinkedList.{OrderedLinkedList, new, destroy, add, remove, contains}

-- The heap holds the list with the cells `mid`; nothing stands behind its tail.
abbrev pub Holds : {T : Type 0} → OrderedLinkedList → Heap (Entry T) → List (ℕ × Entry T) → Type 0
Holds l h mid = IsList null l.head l.tail h mid

module _ {T : Type 0} where
  -- The constructor makes an empty list of two new nodes.
  pub new-Holds :
      (t p : ℕ) (h : Heap (Entry T))
      → t ≢ null
      → p ≢ null
      → p ≢ t
      → Holds (new t p h).0 (new t p h).1 []
  unfolding new
  new-Holds t p h t_live p_live ne = record {
    cells = (p_live, ground (arith, ne), ground arith, (t_live, refl, ground (arith, ne), tt));
    order = (omega arith, tt);
  }

  -- The destructor frees the two end nodes of a list, and leaves every other node as it was.
  pub destroy-rest :
      (l : OrderedLinkedList) (h : Heap (Entry T)) (mid : List (ℕ × Entry T))
      → Holds l h mid
      → (l' : OrderedLinkedList) × (h' : Heap (Entry T)) × (destroy l h ≡ ok (l', h'))
        × (h' l.head ≡ none)
        × (h' l.tail ≡ none)
        × ((a : ℕ) → has a mid ≡ true → h' a ≡ h a)
  unfolding destroy
  destroy-rest l h mid s =
      let c = s.cells in
      let out = has-append l.head mid ((l.tail, entry none int_max) ∷ []) in
      let end = middle null h mid ((l.tail, entry none int_max) ∷ []) c.3 in
      let inner : has l.head mid ≡ false = ground (arith, out, c.1) in
      let tail : has l.tail mid ≡ false =
        apart null l.tail h mid ((l.tail, entry none int_max) ∷ []) c.3 (ground arith) in
      let h₁ = update h l.head none in
      let other : (l.head == l.tail) ≡ false = ground (arith, out, c.1) in
      (
        record { head = null; tail = null },
        update h₁ l.tail none,
        rw
            (delete-live h l.head (entry none int_min)
              (head_of null (mid ++ (l.tail, entry none int_max) ∷ [])) c.0 c.2)
            (rw
              (delete-live h₁ l.tail (entry none int_max) null end.0 (ground (arith, other, end.2)))
              refl),
        ground (arith, other),
        ground arith,
        λ a i. ground (arith, i, inner, tail),
      )

module _ {T : Type 0} (hash : T → ℕ) where
  -- From a list with an inner key for the item, with a fresh node and fuel for all nodes: `add` adds
  -- the key and returns whether it was new; `remove` takes the key out and returns whether it was
  -- there; `contains` returns whether it is there.
  pub ordered-ops :
      (fuel p : ℕ) (x : T) (l : OrderedLinkedList) (h : Heap (Entry T)) (mid : List (ℕ × Entry T))
      → Holds l h mid
      → IsInner (hash x)
      → length mid < fuel
      → p ≢ null
      → h p ≡ none
      → ((h' : Heap (Entry T)) × (add hash fuel p x l h ≡ ok (not (has_key (hash x) mid), h'))
          × Added null l.head l.tail (hash x) mid h')
        × ((h' : Heap (Entry T)) × (remove hash fuel x l h ≡ ok (has_key (hash x) mid, h'))
            × Removed null l.head l.tail (hash x) mid h')
        × (contains hash (suc fuel) x l h ≡ ok (has_key (hash x) mid))
  unfolding add remove contains
  ordered-ops fuel p x l h mid s inner enough ne fresh =
      let (a, b, h₁, at₁, done₁, set₁) =
        link-IsList null l.head l.tail h mid s fuel (hash x) inner enough p x ne fresh in
      let (c, d, h₂, at₂, done₂, set₂) =
        unlink-IsList null l.head l.tail h mid s fuel (hash x) inner enough in
      (
        (h₁, rw at₁ done₁, Added-link null l.head l.tail (hash x) mid p x h₁ set₁),
        (h₂, rw at₂ done₂, Removed-unlink null l.head l.tail (hash x) mid h₂ s.order set₂),
        seek-head null l.head l.tail h mid s fuel (hash x) inner enough,
      )
