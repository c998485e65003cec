-- ===== src/Tests/LockFree.antt =====
-- The lock-free list at a concrete input, and what its `contains` does to marked nodes.
use tl2_cpp.Common.{ℕ, ◌≡◌, refl, true, false, none, some, [], ◌∷◌, arith, update}
use tl2_cpp.Common.Res.{ok}
use tl2_cpp.Heap
use tl2_cpp.Heap.{Heap, node}
use tl2_cpp.Lists.Sorted.{Entry, entry, int_min, int_max}
use tl2_cpp.Lists.LockFreeList
use tl2_cpp.Lists.LockFreeList.{LockFreeList, pack, get_ptr, get_mark, seek_marked, get}
use tl2_cpp.Lists.LockFreeList.Set.{IsMarked}
use tl2_cpp.Lists.LockFreeList.Keys.{Marks}
use tl2_cpp.Lists.LockFreeList.Seek.{contains-has_live}
use tl2_cpp.Lists.LockFreeList.Ops.{Added, Removed, lockfree-ops}

-- A node of key 5 that is marked, and one of key 7.
abbrev marked_list : LockFreeList
marked_list = record { head = 2; tail = 8 }

abbrev marked_heap : Heap (Entry ℕ)
marked_heap =
    update
      (update
        (update (update (λ a. none) 8 (some (node (entry none int_max) 8))) 6
          (some (node (entry (some 7) 7) 8)))
        4 (some (node (entry (some 5) 5) 7)))
      2 (some (node (entry none int_min) 4))

abbrev marked_cells : Marks ℕ
marked_cells =
    (2, (entry none int_min, false))
    ∷ (4, (entry (some 5) 5, true))
    ∷ (6, (entry (some 7) 7, false))
    ∷ (8, (entry none int_max, false))
    ∷ []

marked_IsMarked : IsMarked marked_list marked_heap marked_cells
unfolding get_ptr get_mark
marked_IsMarked = record {
  cells = (
    ground arith,
    refl,
    refl,
    (ground arith, refl, refl, (ground arith, refl, refl, (ground arith, refl, refl, tt))),
  );
  first = refl;
  order = (omega arith, (omega arith, (omega arith, tt)));
  reach = refl;
}

abbrev hash : ℕ → ℕ
hash a = a

lockfree-ops_example :
    ((h' : Heap (Entry ℕ)) × (LockFreeList.add hash 1 4 (λ r. 10) 7 marked_list marked_heap
        ≡ ok (false, h'))
      × Added marked_list 7 marked_cells h')
    × ((h' : Heap (Entry ℕ)) × (LockFreeList.remove hash 1 4 7 marked_list marked_heap
          ≡ ok (true, h'))
        × Removed marked_list 7 marked_cells h')
lockfree-ops_example =
    lockfree-ops hash 0 4 7 marked_list marked_heap marked_cells marked_IsMarked
      (omega arith, omega arith) (omega arith) (λ r. 10) (ground arith) refl refl

-- The same list with neither of its nodes marked.
abbrev plain_heap : Heap (Entry ℕ)
plain_heap = update marked_heap 4 (some (node (entry (some 5) 5) 6))

abbrev plain_cells : Marks ℕ
plain_cells =
    (2, (entry none int_min, false))
    ∷ (4, (entry (some 5) 5, false))
    ∷ (6, (entry (some 7) 7, false))
    ∷ (8, (entry none int_max, false))
    ∷ []

plain_IsMarked : IsMarked marked_list plain_heap plain_cells
unfolding get_ptr get_mark
plain_IsMarked = record {
  cells = (
    ground arith,
    refl,
    refl,
    (ground arith, refl, refl, (ground arith, refl, refl, (ground arith, refl, refl, tt))),
  );
  first = refl;
  order = (omega arith, (omega arith, (omega arith, tt)));
  reach = refl;
}

contains-has_live_example : LockFreeList.contains hash 4 7 marked_list plain_heap ≡ ok true
contains-has_live_example =
    contains-has_live hash 4 7 marked_list plain_heap plain_cells plain_IsMarked
      (omega arith, omega arith) refl (omega arith)

-- The key of the marked node is taken for present, and the key behind it is passed over.
contains_marked : LockFreeList.contains hash 9 5 marked_list marked_heap ≡ ok true
unfolding LockFreeList.contains seek_marked get tl2_cpp.Heap.at get_mark get_ptr
contains_marked = refl

contains_behind : LockFreeList.contains hash 9 7 marked_list marked_heap ≡ ok false
unfolding LockFreeList.contains seek_marked get tl2_cpp.Heap.at get_mark get_ptr
contains_behind = refl
