-- ===== src/Lists/LockFreeList.antt =====
-- graphs/ordered_ll/lockfree_list.h, `LockFreeList`, run by one thread. The same file is also
-- .graphs/linked_list/lockfree_list.h. The `next` of a node is the word `raw`: an address whose
-- lowest bit is the mark of the node. `hash` is `std::hash<T>`.
-- The first argument of a loop is fuel.
pub mod Marked
pub mod Locate
pub mod Set
pub mod Keys
pub mod Change
pub mod Ops
pub mod Seek
use tl2_cpp.Common.{
  ℕ, zero, suc, ◌+◌, ◌-◌, ◌%◌, Bool, true, false, not, ◌&&◌, Option, none, some, ◌==◌, leb,
  if◌then◌else◌,
}
use tl2_cpp.Common.Res.{Res, ok, spins, ◌>>=◌}
use tl2_cpp.Heap.{Node, Heap, null, at, construct, set_next}
use tl2_cpp.Lists.Sorted.{Entry, entry, int_min, int_max}

pub record LockFreeList : Type 0 where
  pub head : ℕ
  pub tail : ℕ

-- `AMR`
unfoldable pub pack : ℕ → Bool → ℕ
pack ptr mark = ptr - ptr % 2 + (if mark then 1 else 0)

unfoldable pub get_ptr : ℕ → ℕ
get_ptr v = v - v % 2

unfoldable pub get_mark : ℕ → Bool
get_mark v = not (v % 2 == 0)

module _ {T : Type 0} where
  -- `p->next.get(marked)`, with the mark.
  unfoldable pub get : Heap (Entry T) → ℕ → Res (ℕ × Bool)
  get h p = do n ← at h p; ok (get_ptr n.next, get_mark n.next)

  -- `p->next.set(ptr, mark)`
  unfoldable pub set : Heap (Entry T) → ℕ → ℕ → Bool → Res (Heap (Entry T))
  set h p ptr mark = set_next h p (pack ptr mark)

  -- `p->next.compare_and_set(...)`
  unfoldable pub compare_and_set :
      Heap (Entry T)
      → ℕ
      → (expected_ref new_ref : ℕ) → (expected_mark new_mark : Bool) → Res (Bool × Heap (Entry T))
  compare_and_set h p expected_ref new_ref expected_mark new_mark = do
    n ← at h p
    let exchange = (do h' ← set h p new_ref new_mark; ok (true, h'))
    if n.next == pack expected_ref expected_mark then exchange else ok (false, h)

  -- `t` and `p` are the addresses of the two nodes.
  unfoldable pub new : (t p : ℕ) → Heap (Entry T) → Res (LockFreeList × Heap (Entry T))
  new t p h = do
    h' ← set (construct h t (entry none int_max) (pack null false)) t t false
    ok (record { head = p; tail = t }, construct h' p (entry none int_min) (pack t false))

  -- The inner loop of `locate`, which stops at two nodes or, with `none`, to begin again.
  unfoldable pub hop :
      ℕ → Heap (Entry T) → ℕ → (pred curr : ℕ) → Res (Option (ℕ × ℕ) × Heap (Entry T))
  hop zero h key pred curr = spins
  hop (suc k) h key pred curr = do
    n ← at h curr
    (succ, marked) ← get h curr
    let unlinked = (do
      (done, h') ← compare_and_set h pred curr succ false false
      let rest = hop k h' key pred succ
      if done then rest else ok (none, h'))
    let further = hop k h key curr succ
    if marked
        then unlinked
        else if leb key n.data_of.key
        then ok (some (pred, curr), h)
        else further

  -- `retry` is fuel for the outer loop.
  unfoldable pub locate : ℕ → ℕ → Heap (Entry T) → ℕ → ℕ → Res ((ℕ × ℕ) × Heap (Entry T))
  locate zero k h start key = spins
  locate (suc retry) k h start key = do
    (curr, marked) ← get h start
    (found, h') ← hop k h key start curr
    let again = locate retry k h' start key
    stop found h' again
    where
      stop :
          Option (ℕ × ℕ)
          → Heap (Entry T)
          → Res ((ℕ × ℕ) × Heap (Entry T))
          → Res ((ℕ × ℕ) × Heap (Entry T))
      stop none h again = again
      stop (some found) h again = ok (found, h)

  -- The loop of `contains`.
  unfoldable pub seek_marked : ℕ → Heap (Entry T) → ℕ → ℕ → Res Bool
  seek_marked zero h key curr = spins
  seek_marked (suc k) h key curr = do
    (next, marked) ← get h curr
    let rest = seek_marked k h key next
    let look = (do n ← at h next; if leb key n.data_of.key then ok (n.data_of.key == key) else rest)
    if marked then rest else look

module _ {T : Type 0} (hash : T → ℕ) where
  -- `p` gives the address of the node that a round makes.
  unfoldable pub add :
      ℕ → ℕ → (ℕ → ℕ) → T → LockFreeList → Heap (Entry T) → Res (Bool × Heap (Entry T))
  add zero k p item l h = spins
  add (suc round) k p item l h = do
    ((pred, curr), h₁) ← locate (suc round) k h l.head (hash item)
    n ← at h₁ curr
    let h₂ = construct h₁ (p round) (entry (some item) (hash item)) (pack curr false)
    let insert = (do
      (done, h₃) ← compare_and_set h₂ pred curr (p round) false false
      let again = add round k p item l h₃
      if done then ok (true, h₃) else again)
    if n.data_of.key == hash item then ok (false, h₁) else insert

  unfoldable pub remove : ℕ → ℕ → T → LockFreeList → Heap (Entry T) → Res (Bool × Heap (Entry T))
  remove zero k item l h = spins
  remove (suc round) k item l h = do
    ((pred, curr), h₁) ← locate (suc round) k h l.head (hash item)
    n ← at h₁ curr
    (succ, marked) ← get h₁ curr
    let take = (do
      (done, h₂) ← compare_and_set h₁ curr succ succ false true
      let unlinked = (do
        (result, h₃) ← compare_and_set h₂ pred curr succ false false
        ok (true, h₃))
      let again = remove round k item l h₂
      if done then unlinked else again)
    let again = remove round k item l h₁
    if not (n.data_of.key == hash item) then ok (false, h₁) else if marked then again else take

  unfoldable pub contains : ℕ → T → LockFreeList → Heap (Entry T) → Res Bool
  contains k item l h = seek_marked k h (hash item) l.head
