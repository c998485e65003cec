-- ===== src/Lists/LinkedList.antt =====
-- zoo/linked_list.h, `LinkedList`. The heap is shared by all lists, since a hash map has many.
-- Each body is what it does at once, as `atomically` runs it; `matches` is the `==` of the items.
-- The first argument of a loop is fuel.
pub mod Cells
pub mod Search
pub mod Update
pub mod Locate
pub mod Remove
use tl2_cpp.Common.{
  ℕ, zero, suc, ◌+◌, ◌-◌, ◌^◌, ◌%◌, Bool, true, false, not, Option, none, some, ◌==◌, if◌then◌else◌,
}
use tl2_cpp.Common.Res.{Res, ok, spins, ◌>>=◌}
use tl2_cpp.Heap.{Node, Heap, null, at, construct, set_next, set_data, delete}

pub record LinkedList : Type 0 where
  pub head : ℕ
  pub size : ℕ

-- The constructor.
abbrev pub new : LinkedList
new = record { head = null; size = 0 }

unfoldable pub size_of : LinkedList → ℕ
size_of l = l.size

module _ {T : Type 0} where
  -- The destructor.
  unfoldable pub destroy : ℕ → ℕ → Heap T → Res (Heap T)
  destroy zero curr h = spins
  destroy (suc k) curr h = do
    let rest = (do n ← at h curr; h' ← delete h curr; destroy k n.next h')
    if curr == null then ok h else rest

  -- `p` is the address of the new node.
  unfoldable pub add : ℕ → T → LinkedList → Heap T → Res (LinkedList × Heap T)
  add p item l h = do
    h' ← set_next (construct h p item null) p l.head
    ok (record { head = p; size = (l.size + 1) % 2 ^ 64 }, h')

module _ {T : Type 0} (matches : T → T → Bool) where
  -- The loop of `contains`, `get` and `update`: the first node with the item, or null.
  unfoldable pub find : ℕ → Heap T → T → ℕ → Res ℕ
  find zero h x curr = spins
  find (suc k) h x curr = do
    let rest = (do
      n ← at h curr
      let further = find k h x n.next
      if matches n.data_of x then ok curr else further)
    if curr == null then ok null else rest

  unfoldable pub locate_loop : ℕ → Heap T → T → (pred curr : ℕ) → Res (ℕ × ℕ)
  locate_loop zero h x pred curr = spins
  locate_loop (suc k) h x pred curr = do
    let rest = (do
      n ← at h curr
      let further = locate_loop k h x curr n.next
      if matches n.data_of x then ok (pred, curr) else further)
    if curr == null then ok (pred, null) else rest

  unfoldable pub locate : ℕ → Heap T → T → ℕ → Res (ℕ × ℕ)
  locate k h x start = if start == null then ok (null, null) else locate_loop k h x null start

  -- The body of `remove`: the node that is taken out, or null.
  unfoldable pub take_out : ℕ → T → LinkedList → Heap T → Res (ℕ × LinkedList × Heap T)
  take_out k item l h = do
    (pred, curr) ← locate k h item l.head
    let fewer = (l.size + (2 ^ 64 - 1)) % 2 ^ 64
    let inner = (do
      n ← at h curr
      h' ← set_next h pred n.next
      ok (curr, record l { size = fewer }, h'))
    let first = (do n ← at h l.head; ok (l.head, record { head = n.next; size = fewer }, h))
    if curr == null then ok (null, l, h) else if curr == l.head then first else inner

  unfoldable pub remove : ℕ → T → LinkedList → Heap T → Res (Bool × LinkedList × Heap T)
  remove k item l h = do
    (node, l', h') ← take_out k item l h
    h'' ← delete h' node
    ok (not (node == null), l', h'')

  unfoldable pub contains : ℕ → T → LinkedList → Heap T → Res Bool
  contains k item l h = do curr ← find k h item l.head; ok (not (curr == null))

  unfoldable pub get : ℕ → T → LinkedList → Heap T → Res (Option T)
  get k item l h = do
    curr ← find k h item l.head
    let there = (do n ← at h curr; ok (some n.data_of))
    if curr == null then ok none else there

  -- `p` is the address that `add` gives a new node, if one is made.
  unfoldable pub replace : ℕ → ℕ → T → T → LinkedList → Heap T → Res (LinkedList × Heap T)
  replace k p curr_item next_item l h = do
    curr ← find k h curr_item l.head
    let there = (do h' ← set_data h curr next_item; ok (l, h'))
    let anew = add p next_item l h
    if curr == null then anew else there
