-- ===== src/Lists/OrderedLinkedList.antt =====
-- zoo/ordered_ll.h, `OrderedLinkedList`: a sorted list whose links are variables. Each body is what
-- it does at once, as `atomically` runs it. `hash` is the `HashFunc` of the list.
pub mod Set
use tl2_cpp.Common.{ℕ, Bool, none, some}
use tl2_cpp.Common.Res.{Res, ok, ◌>>=◌}
use tl2_cpp.Heap.{Heap, null, construct, delete}
use tl2_cpp.Lists.Sorted.{Entry, entry, int_min, int_max, locate, seek, link, unlink}

pub record OrderedLinkedList : Type 0 where
  pub head : ℕ
  pub tail : ℕ

module _ {T : Type 0} where
  -- `t` and `p` are the addresses of the two nodes.
  unfoldable pub new : (t p : ℕ) → Heap (Entry T) → OrderedLinkedList × Heap (Entry T)
  new t p h = (
    record { head = p; tail = t },
    construct (construct h t (entry none int_max) null) p (entry none int_min) t,
  )

  -- The destructor deletes the two end nodes.
  unfoldable pub destroy :
      OrderedLinkedList → Heap (Entry T) → Res (OrderedLinkedList × Heap (Entry T))
  destroy l h = do
    h' ← delete h l.head
    h'' ← delete h' l.tail
    ok (record { head = null; tail = null }, h'')

module _ {T : Type 0} (hash : T → ℕ) where
  unfoldable pub add : ℕ → ℕ → T → OrderedLinkedList → Heap (Entry T) → Res (Bool × Heap (Entry T))
  add fuel p item l h = do
    (pred, curr) ← locate fuel h l.head (hash item)
    link p item (hash item) h pred curr

  unfoldable pub remove : ℕ → T → OrderedLinkedList → Heap (Entry T) → Res (Bool × Heap (Entry T))
  remove fuel item l h = do
    (pred, curr) ← locate fuel h l.head (hash item)
    unlink (hash item) h pred curr

  unfoldable pub contains : ℕ → T → OrderedLinkedList → Heap (Entry T) → Res Bool
  contains fuel item l h = seek fuel h (hash item) l.head
