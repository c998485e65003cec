-- ===== src/Lists/CoarseList.antt =====
-- graphs/ordered_ll/coarse_list.h, `CoarseList`: a sorted list under one mutex.
-- The same file is also .graphs/linked_list/coarse_list.h. `hash` is `std::hash<T>`.
pub mod Set
use tl2_cpp.Common.{ℕ, suc, Bool, true, false, none, some, if◌then◌else◌}
use tl2_cpp.Common.Res.{Res, ok, spins, ◌>>=◌}
use tl2_cpp.Heap.{Heap, null, at, construct, set_next}
use tl2_cpp.Lists.Sorted.{Entry, entry, int_min, int_max, locate, seek, link, unlink}

-- The two end nodes, and whether the mutex is held.
pub record CoarseList : Type 0 where
  pub head : ℕ
  pub tail : ℕ
  pub locked : Bool

-- `std::lock_guard<std::mutex> g(lock)`, which waits for ever if the mutex is held, and its end.
abbrev pub acquire : CoarseList → Res CoarseList
acquire l = if l.locked then spins else ok (record l { locked = true })

abbrev pub release : CoarseList → CoarseList
release l = record l { locked = false }

module _ {T : Type 0} where
  -- `t` and `p` are the addresses of the two nodes.
  unfoldable pub new : (t p : ℕ) → Heap (Entry T) → Res (CoarseList × Heap (Entry T))
  new t p h = do
    h' ← set_next (construct h t (entry none int_max) null) t t
    ok (record { head = p; tail = t; locked = false }, construct h' p (entry none int_min) t)

module _ {T : Type 0} (hash : T → ℕ) where
  unfoldable pub add :
      ℕ → ℕ → T → CoarseList → Heap (Entry T) → Res (Bool × CoarseList × Heap (Entry T))
  add fuel p item l h = do
    l' ← acquire l
    (pred, curr) ← locate fuel h l'.head (hash item)
    (result, h') ← link p item (hash item) h pred curr
    ok (result, release l', h')

  unfoldable pub remove :
      ℕ → T → CoarseList → Heap (Entry T) → Res (Bool × CoarseList × Heap (Entry T))
  remove fuel item l h = do
    l' ← acquire l
    (pred, curr) ← locate fuel h l'.head (hash item)
    (result, h') ← unlink (hash item) h pred curr
    ok (result, release l', h')

  unfoldable pub contains : ℕ → T → CoarseList → Heap (Entry T) → Res (Bool × CoarseList)
  contains fuel item l h = do
    l' ← acquire l
    n ← at h l'.head
    result ← seek fuel h (hash item) n.next
    ok (result, release l')
