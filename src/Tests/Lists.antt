-- ===== src/Tests/Lists.antt =====
-- The theorems on lists, maps, queues and accounts at concrete inputs.
use tl2_cpp.Common.{ℕ, ◌≡◌, refl, true, false, none, some, List, [], ◌∷◌, arith, update}
use tl2_cpp.Common.Res.{ok}
use tl2_cpp.Heap.{Heap, node}
use tl2_cpp.Heap.Cells.{has}
use tl2_cpp.Lists.Sorted.{Entry, entry, int_min, int_max}
use tl2_cpp.Lists.Sorted.Ends.{IsList}
use tl2_cpp.Lists.Sorted.Results.{Added, Removed}
use tl2_cpp.Lists.CoarseList
use tl2_cpp.Lists.CoarseList.{CoarseList}
use tl2_cpp.Lists.CoarseList.Set.{coarse-ops}
use tl2_cpp.Lists.CoarseLinkedList.{CoarseLinkedList}
use tl2_cpp.Lists.OrderedLinkedList
use tl2_cpp.Lists.OrderedLinkedList.{OrderedLinkedList}
use tl2_cpp.Lists.OrderedLinkedList.Set.{ordered-ops, destroy-rest}
use tl2_cpp.Lists.FineList
use tl2_cpp.Lists.FineList.{FineList}
use tl2_cpp.Lists.FineList.Coupling.{no_one}
use tl2_cpp.Lists.FineList.Set.{fine-ops}

-- A list with an item of key 7, between its end nodes at 1 and 3.
abbrev seven : List (ℕ × Entry ℕ)
seven = (2, entry (some 7) 7) ∷ []

abbrev seven_heap : ℕ → Heap (Entry ℕ)
seven_heap stop =
    update
      (update (update (λ a. none) 3 (some (node (entry none int_max) stop))) 2
        (some (node (entry (some 7) 7) 3)))
      1 (some (node (entry none int_min) 2))

abbrev seven_IsList : (stop : ℕ) → IsList stop 1 3 (seven_heap stop) seven
seven_IsList stop = record {
  cells = (ground arith, refl, refl, (ground arith, refl, refl, (ground arith, refl, refl, tt)));
  order = (omega arith, (omega arith, tt));
}

abbrev key_of : ℕ → ℕ
key_of x = x

abbrev coarse_seven : CoarseList
coarse_seven = record { head = 1; tail = 3; locked = false }

coarse-ops_example :
    ((h' : Heap (Entry ℕ)) × (CoarseList.add key_of 5 9 4 coarse_seven (seven_heap 3)
        ≡ ok (true, coarse_seven, h'))
      × Added 3 1 3 4 seven h')
    × ((h' : Heap (Entry ℕ)) × (CoarseList.remove key_of 5 4 coarse_seven (seven_heap 3)
          ≡ ok (false, coarse_seven, h'))
        × Removed 3 1 3 4 seven h')
    × (CoarseList.contains key_of 5 4 coarse_seven (seven_heap 3) ≡ ok (false, coarse_seven))
coarse-ops_example =
    coarse-ops key_of 5 9 4 coarse_seven (seven_heap 3) seven
      (record { free = refl; set = seven_IsList 3 }) (omega arith, omega arith) (omega arith)
      (ground arith) refl

abbrev linked_seven : CoarseLinkedList
linked_seven = record { head = 1; tail = 3 }

abbrev ordered_seven : OrderedLinkedList
ordered_seven = record { head = 1; tail = 3 }

ordered-ops_example :
    ((h' : Heap (Entry ℕ)) × (OrderedLinkedList.add key_of 5 9 7 ordered_seven (seven_heap 0)
        ≡ ok (false, h'))
      × Added 0 1 3 7 seven h')
    × ((h' : Heap (Entry ℕ)) × (OrderedLinkedList.remove key_of 5 7 ordered_seven (seven_heap 0)
          ≡ ok (true, h'))
        × Removed 0 1 3 7 seven h')
    × (OrderedLinkedList.contains key_of 6 7 ordered_seven (seven_heap 0) ≡ ok true)
ordered-ops_example =
    ordered-ops key_of 5 9 7 ordered_seven (seven_heap 0) seven (seven_IsList 0)
      (omega arith, omega arith) (omega arith) (ground arith) refl

destroy-rest_example :
    (l' : OrderedLinkedList) × (h' : Heap (Entry ℕ)) × (OrderedLinkedList.destroy ordered_seven
        (seven_heap 0)
      ≡ ok (l', h'))
    × (h' 1 ≡ none)
    × (h' 3 ≡ none)
    × ((a : ℕ) → has a seven ≡ true → h' a ≡ seven_heap 0 a)
destroy-rest_example = destroy-rest ordered_seven (seven_heap 0) seven (seven_IsList 0)

abbrev fine_seven : FineList
fine_seven = record { head = 1; tail = 3 }

fine-ops_example :
    ((h' : Heap (Entry ℕ)) × (FineList.add key_of 5 9 9 fine_seven no_one (seven_heap 3)
        ≡ ok (true, no_one, h'))
      × Added 3 1 3 9 seven h')
    × ((h' : Heap (Entry ℕ)) × (FineList.remove key_of 5 9 fine_seven no_one (seven_heap 3)
          ≡ ok (false, no_one, h'))
        × Removed 3 1 3 9 seven h')
    × (FineList.contains key_of 5 9 fine_seven no_one (seven_heap 3) ≡ ok (false, no_one))
fine-ops_example =
    fine-ops key_of 5 9 9 fine_seven (seven_heap 3) seven (seven_IsList 3)
      (omega arith, omega arith) (omega arith) (ground arith) refl
