-- ===== src/Lists/CoarseList/Set.antt =====
-- `CoarseList` as a set of keys.
use tl2_cpp.Common.{ℕ, ◌<◌, ◌≡◌, ◌≢◌, refl, false, not, none, List, [], ◌∷◌, ◌++◌, length}
use tl2_cpp.Common.Res.{ok}
use tl2_cpp.Heap.{Heap, null}
use tl2_cpp.Heap.Cells.{head_of, at-live}
use tl2_cpp.Lists.Sorted.{Entry, entry, int_min, int_max}
use tl2_cpp.Lists.Sorted.Keys.{has_key}
use tl2_cpp.Lists.Sorted.Ends.{IsInner, IsList, link-IsList, unlink-IsList, seek-first}
use tl2_cpp.Lists.Sorted.Results.{Added, Removed, Added-link, Removed-unlink}
use tl2_cpp.Lists.CoarseList.{CoarseList, add, remove, contains}

-- The list is free and holds the cells `mid`; its tail is linked to itself.
pub record Holds {T : Type 0} (l : CoarseList) (h : Heap (Entry T)) (mid : List (ℕ × Entry T))
    : Type 0 where
  pub free : l.locked ≡ false
  pub set : IsList l.tail l.head l.tail h mid

module _ {T : Type 0} (hash : T → ℕ) where
  -- From a free list with an inner key for the item, with a fresh node and fuel for all nodes: `add`
  -- adds the key and returns whether it was new; `remove` takes the key out and returns whether it
  -- was there; `contains` returns whether it is there. Each leaves a free list.
  pub coarse-ops :
      (fuel p : ℕ) (x : T) (l : CoarseList) (h : Heap (Entry T)) (mid : List (ℕ × Entry T))
      → Holds l h mid
      → IsInner (hash x)
      → length mid < fuel
      → p ≢ null
      → h p ≡ none
      → ((h' : Heap (Entry T)) × (add hash fuel p x l h ≡ ok (not (has_key (hash x) mid), l, h'))
          × Added l.tail l.head l.tail (hash x) mid h')
        × ((h' : Heap (Entry T)) × (remove hash fuel x l h ≡ ok (has_key (hash x) mid, l, h'))
            × Removed l.tail l.head l.tail (hash x) mid h')
        × (contains hash fuel x l h ≡ ok (has_key (hash x) mid, l))
  unfolding add remove contains
  coarse-ops fuel p x l h mid s inner enough ne fresh =
      let (a, b, h₁, at₁, done₁, set₁) =
        link-IsList l.tail l.head l.tail h mid s.set fuel (hash x) inner enough p x ne fresh in
      let (c, d, h₂, at₂, done₂, set₂) =
        unlink-IsList l.tail l.head l.tail h mid s.set fuel (hash x) inner enough in
      (
        (
          h₁,
          rw (s.free, at₁, done₁) refl,
          Added-link l.tail l.head l.tail (hash x) mid p x h₁ set₁,
        ),
        (
          h₂,
          rw (s.free, at₂, done₂) refl,
          Removed-unlink l.tail l.head l.tail (hash x) mid h₂ s.set.order set₂,
        ),
        rw
            (
              s.free,
              at-live h l.head (entry none int_min)
                  (head_of l.tail (mid ++ (l.tail, entry none int_max) ∷ [])) s.set.cells.0
                  s.set.cells.2,
              seek-first l.tail l.head l.tail h mid s.set fuel (hash x) inner enough,
            )
            refl,
      )
