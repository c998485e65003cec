-- ===== src/Lists/FineList.antt =====
-- graphs/ordered_ll/fine_list.h, `FineList`: a sorted list with a mutex in each node, taken hand
-- over hand. The same file is also .graphs/linked_list/fine_list.h. `hash` is `std::hash<T>`.
-- The mutexes are a function from the addresses of the nodes: whether each is held.
pub mod Coupling
pub mod Set
use tl2_cpp.Common.{ℕ, zero, suc, Bool, true, false, none, some, ltb, if◌then◌else◌, update, ◌==◌}
use tl2_cpp.Common.Res.{Res, ok, spins, ◌>>=◌}
use tl2_cpp.Heap.{Heap, null, at, construct, set_next}
use tl2_cpp.Lists.Sorted.{Entry, entry, int_min, int_max, link, unlink}

pub record FineList : Type 0 where
  pub head : ℕ
  pub tail : ℕ

abbrev pub Mutexes : Type 0
Mutexes = ℕ → Bool

module _ {T : Type 0} where
  -- `p->lock.lock()`, which waits for ever if the mutex is held.
  unfoldable pub lock : Heap (Entry T) → ℕ → Mutexes → Res Mutexes
  lock h p held = do n ← at h p; if held p then spins else ok (update held p true)

  -- `p->lock.unlock()`
  unfoldable pub unlock : Heap (Entry T) → ℕ → Mutexes → Res Mutexes
  unlock h p held = do n ← at h p; ok (update held p false)

  unfoldable pub new : (t p : ℕ) → Heap (Entry T) → Res (FineList × Heap (Entry T))
  new t p h = do
    h' ← set_next (construct h t (entry none int_max) null) t t
    ok (record { head = p; tail = t }, construct h' p (entry none int_min) t)

  -- The loop, with the nodes where it stops and the mutexes then. The first argument is fuel.
  unfoldable pub walk : ℕ → Heap (Entry T) → ℕ → (pred curr : ℕ) → Mutexes → Res (ℕ × ℕ × Mutexes)
  walk zero h key pred curr held = spins
  walk (suc k) h key pred curr held = do
    n ← at h curr
    let rest = (do
      held₁ ← unlock h pred held
      held₂ ← lock h n.next held₁
      walk k h key curr n.next held₂)
    if ltb n.data_of.key key then rest else ok (pred, curr, held)

  -- From the head, with its mutex and that of its successor.
  unfoldable pub enter : ℕ → Heap (Entry T) → ℕ → ℕ → Mutexes → Res (ℕ × ℕ × Mutexes)
  enter fuel h key head held = do
    held₁ ← lock h head held
    n ← at h head
    held₂ ← lock h n.next held₁
    walk fuel h key head n.next held₂

  -- `curr->lock.unlock(); pred->lock.unlock();`
  unfoldable pub leave : Heap (Entry T) → (pred curr : ℕ) → Mutexes → Res Mutexes
  leave h pred curr held = do held₁ ← unlock h curr held; unlock h pred held₁

module _ {T : Type 0} (hash : T → ℕ) where
  -- The mutex of a new node is free.
  unfoldable pub add :
      ℕ → ℕ → T → FineList → Mutexes → Heap (Entry T) → Res (Bool × Mutexes × Heap (Entry T))
  add fuel p item l held h = do
    (pred, curr, held₁) ← enter fuel h (hash item) l.head held
    (result, h') ← link p item (hash item) h pred curr
    held₂ ← leave h' pred curr (if result then update held₁ p false else held₁)
    ok (result, held₂, h')

  unfoldable pub remove :
      ℕ → T → FineList → Mutexes → Heap (Entry T) → Res (Bool × Mutexes × Heap (Entry T))
  remove fuel item l held h = do
    (pred, curr, held₁) ← enter fuel h (hash item) l.head held
    (result, h') ← unlink (hash item) h pred curr
    held₂ ← leave h' pred curr held₁
    ok (result, held₂, h')

  unfoldable pub contains : ℕ → T → FineList → Mutexes → Heap (Entry T) → Res (Bool × Mutexes)
  contains fuel item l held h = do
    (pred, curr, held₁) ← enter fuel h (hash item) l.head held
    n ← at h curr
    held₂ ← leave h pred curr held₁
    ok (n.data_of.key == hash item, held₂)
