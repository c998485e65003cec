-- ===== src/Stm.antt =====
-- tl2/stm.h: `commit` and `try_commit`.
pub mod Commit
pub mod TryCommit
use tl2_cpp.Common.{
  ℕ, zero, suc, ◌+◌, ◌%◌, ◌^◌, Bool, true, false, not, List, [], ◌∷◌, ◌==◌, ltb, if◌then◌else◌,
}
use tl2_cpp.Common.Res.{Res, ok, ◌>>=◌}
use tl2_cpp.VersionLock
use tl2_cpp.LockTable.{LockTable}
use tl2_cpp.Store.{Store}
use tl2_cpp.Location
use tl2_cpp.Location.{Location}
use tl2_cpp.LocationSet.Hash
use tl2_cpp.LocationSet.Vendored.{AddrMap, Sorter}
use tl2_cpp.Log
use tl2_cpp.LockGuard
use tl2_cpp.Manager.{Shared, Manager, World}

module _ {V : Type 0} where
  -- `commit`: for each location that was written, its version and then its data.
  unfoldable pub commit :
      ℕ → ℕ → Store V → List Location → LockTable → (ℕ → V) → Res (LockTable × (ℕ → V))
  commit me wv st [] locks mem = ok (locks, mem)
  commit me wv st (loc ∷ locs) locks mem = elim loc.was_written [
    | false ↦ commit me wv st locs locks mem
    | true ↦ do
      locks' ← Location.set_version me wv locks loc
      mem' ← Location.move st mem loc
      commit me wv st locs locks' mem'
  ]

-- The second loop of `try_commit`: whether no location that was read is newer than `rv`.
unfoldable pub validate : ℕ → ℕ → LockTable → List Location → Res Bool
validate me rv locks [] = ok true
validate me rv locks (loc ∷ locs) = elim loc.was_read [
  | false ↦ validate me rv locks locs
  | true ↦ do
    v ← Location.get_version me locks loc
    let rest = validate me rv locks locs
    if ltb rv v then ok false else rest
]

-- `try_commit`, from the clock's new value on, under the locks: whether it commits, and the table
-- and the data then. If `wv` is the version after `rv`, no other thread has made changes.
unfoldable pub commit_locked :
    {V : Type 0}
    → ℕ
    → ℕ
    → ℕ
    → Store V
    → List Location
    → LockTable
    → (ℕ → V)
    → Res (Bool × LockTable × (ℕ → V))
commit_locked me rv wv st locs locks mem = elim (wv == (rv + 1) % 2 ^ 64) [
  | true ↦ do (locks', mem') ← commit me wv st locs locks mem; ok (true, locks', mem')
  | false ↦ do
    valid ← validate me rv locks locs
    elim valid [
      | true ↦ do (locks', mem') ← commit me wv st locs locks mem; ok (true, locks', mem')
      | false ↦ ok (false, locks, mem)
    ]
]

module _ {m : AddrMap} (srt : Sorter) {V : Type 0} where
  unfoldable pub try_commit : World m V → Res (Bool × World m V)
  try_commit w = do
    let man = w.manager
    let sorted = Hash.stable_sort m srt man.log.l
    (locs, held, locks) ← LockGuard.acquire man.me [] sorted.vec w.shared.locks
    let (clock, wv) = VersionLock.incr_version w.shared.clock
    (committed, locks', mem) ← commit_locked man.me man.rv wv man.log.store locs locks w.shared.mem
    let (locs', locks'') = LockGuard.release held locs locks'
    ok (
      committed,
      record {
        shared = record { clock = clock; locks = locks''; mem = mem };
        manager = record man { log = record (man.log) { l = record sorted { vec = locs' } } };
      },
    )
