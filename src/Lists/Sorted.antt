-- ===== src/Lists/Sorted.antt =====
-- The loops that the sorted lists of zoo/ordered_ll.h, graphs/ordered_ll/coarse_list.h and
-- .graphs/coarse_linked_list/coarse_linked_list.h share, and what they do between two nodes.
-- A key is an `int`, given by its distance from `INT_MIN`. The first argument of a loop is fuel.
pub mod Keys
pub mod Split
pub mod Laws
pub mod Ends
pub mod Results
pub mod Fresh
use tl2_cpp.Common.{
  ℕ, zero, suc, ◌+◌, ◌-◌, ◌^◌, Bool, true, false, Option, none, some, List, [], ◌∷◌, ◌++◌, ◌==◌,
  ltb, if◌then◌else◌,
}
use tl2_cpp.Common.Res.{Res, ok, spins, ◌>>=◌}
use tl2_cpp.Heap.{Node, node, Heap, null, at, construct, set_next}

-- `INT_MIN` and `INT_MAX`
abbrev pub int_min : ℕ
int_min = 0

abbrev pub int_max : ℕ
int_max = 2 ^ 32 - 1

-- The item and the key of a node. The two nodes at the ends have no item of their own.
pub record Entry (T : Type 0) : Type 0 where
  pub item : Option T
  pub key : ℕ

abbrev pub entry : {T : Type 0} → Option T → ℕ → Entry T
entry x k = record { item = x; key = k }

module _ {T : Type 0} where
  -- `while (curr->key < key)`, with the node before.
  unfoldable pub scan : ℕ → Heap (Entry T) → ℕ → (pred curr : ℕ) → Res (ℕ × ℕ)
  scan zero h key pred curr = spins
  scan (suc k) h key pred curr = do
    n ← at h curr
    let rest = scan k h key curr n.next
    if ltb n.data_of.key key then rest else ok (pred, curr)

  unfoldable pub locate : ℕ → Heap (Entry T) → ℕ → ℕ → Res (ℕ × ℕ)
  locate k h start key = do n ← at h start; scan k h key start n.next

  -- The loop of `contains`, and its answer.
  unfoldable pub seek : ℕ → Heap (Entry T) → ℕ → ℕ → Res Bool
  seek zero h key curr = spins
  seek (suc k) h key curr = do
    n ← at h curr
    let rest = seek k h key n.next
    if ltb n.data_of.key key then rest else ok (n.data_of.key == key)

  -- A new node between `pred` and `curr`, unless `curr` has the key.
  unfoldable pub link : ℕ → T → ℕ → Heap (Entry T) → (pred curr : ℕ) → Res (Bool × Heap (Entry T))
  link p item key h pred curr = do
    n ← at h curr
    if n.data_of.key == key
        then ok (false, h)
        else (do h' ← set_next (construct h p (entry (some item) key) curr) pred p; ok (true, h'))

  -- `pred` is linked past `curr`, if `curr` has the key.
  unfoldable pub unlink : ℕ → Heap (Entry T) → (pred curr : ℕ) → Res (Bool × Heap (Entry T))
  unlink key h pred curr = do
    n ← at h curr
    if n.data_of.key == key then (do h' ← set_next h pred n.next; ok (true, h')) else ok (false, h)
