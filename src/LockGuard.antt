-- ===== src/LockGuard.antt =====
-- tl2/lock_guard.h, `LockGuard<LocationHashVectorSet>`: the locks of all locations of a
-- transaction, each taken once, in the order of the addresses.
-- `m_locked` is the list of the addresses of the locations that it points to.
pub mod Acquire
pub mod Release
use tl2_cpp.Common.{ℕ, Bool, true, false, List, [], ◌∷◌, ◌==◌, if◌then◌else◌, contains, reverse}
use tl2_cpp.Common.Res.{Res, ok, ◌>>=◌}
use tl2_cpp.LockTable.{LockTable}
use tl2_cpp.Location
use tl2_cpp.Location.{Location, lock_ptr, mark_owner}

-- The loop of the constructor, from the locks in `locked` on: the locations, `m_locked`, and the
-- table.
unfoldable pub acquire :
    ℕ → List ℕ → List Location → LockTable → Res (List Location × List ℕ × LockTable)
acquire me locked [] locks = ok ([], [], locks)
acquire me locked (loc ∷ locs) locks = elim (contains (lock_ptr loc) locked) [
  | true ↦ do
    (locs', held, locks') ← acquire me locked locs locks
    ok (mark_owner me loc ∷ locs', held, locks')
  | false ↦ do
    (taken, loc', locks₁) ← Location.lock me locks loc
    (locs', held, locks') ← acquire me (lock_ptr loc ∷ locked) locs locks₁
    ok (loc' ∷ locs', if taken then loc.addr ∷ held else held, locks')
]

-- `(*it)->unlock()` for the location at an address.
unfoldable pub unlock_at : ℕ → List Location → LockTable → List Location × LockTable
unlock_at a [] locks = ([], locks)
unlock_at a (loc ∷ locs) locks = elim (loc.addr == a) [
  | true ↦ let (loc', locks') = Location.unlock locks loc in (loc' ∷ locs, locks')
  | false ↦ let (locs', locks') = unlock_at a locs locks in (loc ∷ locs', locks')
]

-- The destructor: the loop goes from the end of `m_locked` to its beginning.
unfoldable pub release : List ℕ → List Location → LockTable → List Location × LockTable
release [] locs locks = (locs, locks)
release (a ∷ held) locs locks =
    let (locs', locks') = release held locs locks in unlock_at a locs' locks'
