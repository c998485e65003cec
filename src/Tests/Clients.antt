-- ===== src/Tests/Clients.antt =====
-- The theorems on unsorted lists, maps, queues and accounts at concrete inputs.
use tl2_cpp.Common.{
  ℕ, ◌≤◌, ◌≡◌, refl, true, false, none, some, List, [], ◌∷◌, ◌==◌, if◌then◌else◌, arith, length,
  update, eq_of_==, ==_refl,
}
use tl2_cpp.Common.Res.{ok}
use tl2_cpp.Heap.{Heap, node, null}
use tl2_cpp.Heap.Cells.{Cells}
use tl2_cpp.Lists.LinkedList
use tl2_cpp.Lists.LinkedList.{LinkedList}
use tl2_cpp.Lists.LinkedList.Cells.{Holds}
use tl2_cpp.Lists.LinkedList.Remove.{Removal, remove-Removal}
use tl2_cpp.Lists.LinkedList.Update.{Replaced, replace-Replaced}
use tl2_cpp.Lists.HashMap
use tl2_cpp.Lists.HashMap.{Entry, HashMap}
use tl2_cpp.Lists.HashMap.Buckets.{IsMap}
use tl2_cpp.Lists.HashMap.Lookup.{lookup, set-lookup, new-IsMap}
use tl2_cpp.Queues.StmQueue
use tl2_cpp.Queues.StmQueue.{StmQueue}
use tl2_cpp.Queues.StmQueue.Fifo
use tl2_cpp.Queues.StmQueue.Fifo.{fifo-ops}
use tl2_cpp.Queues.StackStm
use tl2_cpp.Queues.StackStm.Lifo.{stack-ops}
use tl2_cpp.Queues.BoundedQueue
use tl2_cpp.Queues.BoundedQueue.{BoundedQueue}
use tl2_cpp.Queues.BoundedQueue.Sequence
use tl2_cpp.Queues.BoundedQueue.Sequence.{bounded-ops}

-- A list of 5 and 6.
abbrev two_heap : Heap ℕ
two_heap = update (update (λ a. none) 2 (some (node 6 null))) 1 (some (node 5 2))

abbrev two : List (ℕ × ℕ)
two = (1, 5) ∷ (2, 6) ∷ []

abbrev two_list : LinkedList
two_list = record { head = 1; size = 2 }

abbrev two_Holds : Holds two_list two_heap two
two_Holds = record {
  cells = (ground arith, refl, refl, (ground arith, refl, refl, tt));
  head = refl;
  size = refl;
}

remove-Removal_example :
    (l' : LinkedList) × (h' : Heap ℕ) × (LinkedList.remove (λ a b. a == b) 3 6 two_list two_heap
      ≡ ok (true, l', h'))
    × Removal (λ a b. a == b) 6 two_heap two l' h'
remove-Removal_example =
    remove-Removal (λ a b. a == b) 3 6 two_list two_heap two two_Holds (omega arith)

replace-Replaced_example :
    (l' : LinkedList) × (h' : Heap ℕ) × (LinkedList.replace
        (λ a b. a == b)
        3
        9
        6
        8
        two_list
        two_heap
      ≡ ok (l', h'))
    × Replaced (λ a b. a == b) 9 6 8 two_heap two l' h'
replace-Replaced_example =
    replace-Replaced (λ a b. a == b) 3 9 6 8 two_list two_heap two two_Holds (omega arith)
      (ground arith) refl

abbrev nowhere : {T : Type 0} → Heap T
nowhere a = none

set-lookup_example :
    (m' : HashMap) × (h' : Heap (Entry ℕ ℕ)) × (cs' : ℕ → List (ℕ × Entry ℕ ℕ)) × (HashMap.set
        (λ a b. a == b)
        (λ a. a)
        0
        1
        1
        5
        7
        HashMap.new
        nowhere
      ≡ ok (m', h'))
    × IsMap m' h' cs'
    × ((i : ℕ) → length (cs' i) ≤ 1)
    × ((a : ℕ) → nowhere {T = Entry ℕ ℕ} a ≡ none → (a == 1) ≡ false → h' a ≡ none)
    × ((q : ℕ) → lookup (λ a b. a == b) (λ a. a) 0 cs' q ≡ (if 5 == q then some 7 else none))
set-lookup_example =
    set-lookup (λ a b. a == b) (λ a. a) 0 eq_of_== ==_refl 1 1 5 7 HashMap.new nowhere (λ i. [])
      (new-IsMap (λ a b. a == b) (λ a. a) 0 nowhere).0 (λ i. omega arith) (ground arith) refl

-- A queue of 6, behind its dummy at 1.
fifo-ops_example :
    ((q' : StmQueue) × (h' : Heap ℕ) × (StmQueue.enqueue 9 7
          (record { head = 1; tail = 2 })
          two_heap
        ≡ ok (q', h'))
      × Fifo.Holds q' h' 5 ((2, 6) ∷ (9, 7) ∷ []))
    × ((q' : StmQueue) × (dummy : ℕ) × (StmQueue.dequeue (record { head = 1; tail = 2 }) two_heap
          ≡ ok (some 6, q'))
        × Fifo.Holds q' two_heap dummy [])
fifo-ops_example =
    fifo-ops 9 7 (record { head = 1; tail = 2 }) two_heap 5 ((2, 6) ∷ [])
      (record { cells = two_Holds.cells; last = refl }) (ground arith) refl

stack-ops_example :
    Cells null (StackStm.push 9 7 1 two_heap).1 ((9, 7) ∷ two)
    × ((StackStm.push 9 7 1 two_heap).0 ≡ 9)
    × (StackStm.try_pop 1 two_heap ≡ ok (some 5, 2))
    × Cells null two_heap ((2, 6) ∷ [])
    × (StackStm.empty 1 ≡ false)
stack-ops_example = stack-ops 1 9 7 two_heap two two_Holds.cells refl (ground arith) refl

abbrev one_queue : BoundedQueue ℕ
one_queue = record { _capacity = 2; items = λ i. 5; head = 3; tail = 4 }

bounded-ops_example :
    (((BoundedQueue.try_enq 7 one_queue).0 ≡ true)
      × Sequence.Holds (BoundedQueue.try_enq 7 one_queue).1 (5 ∷ 7 ∷ [])
      × ((BoundedQueue.try_enq 7 one_queue).1._capacity ≡ 2))
    × (((BoundedQueue.try_deq 0 1 (one_queue ∷ []) one_queue).0 ≡ (true, 5))
        × Sequence.Holds (BoundedQueue.try_deq 0 1 (one_queue ∷ []) one_queue).1 []
        × ((BoundedQueue.try_deq 0 1 (one_queue ∷ []) one_queue).1._capacity ≡ 2))
    × (BoundedQueue.size one_queue ≡ 1)
bounded-ops_example =
    bounded-ops 7 0 1 (one_queue ∷ []) one_queue (5 ∷ [])
      (record { slots = (refl, tt); span = refl; fits = omega arith; bound = omega arith })
      (omega arith)
