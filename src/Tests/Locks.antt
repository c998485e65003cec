-- ===== src/Tests/Locks.antt =====
-- The theorems on lock words, location sets and lock guards at concrete inputs.
use tl2_cpp.Common.{
  ℕ, ◌+◌, ◌^◌, ◌<◌, ◌≤◌, ◌≡◌, refl, true, false, none, some, List, [], ◌∷◌, arith, if◌then◌else◌,
  contains, map,
}
use tl2_cpp.Common.Res.{ok, ◌>>=◌}
use tl2_cpp.VersionLock
use tl2_cpp.VersionLock.{is_locked, pack, Round, quiet}
use tl2_cpp.VersionLock.Pack.{unlock-lock_or_set, incr_version-next}
use tl2_cpp.VersionLock.Rounds.{
  Among, Acquired, here, there, lock_loop-acquires, get_version_loop-returns,
}
use tl2_cpp.LockTable.{LockTable, index}
use tl2_cpp.LockTable.Order.{index_mono_window, index_both_orders}
use tl2_cpp.Location.{Location, new_location, mark_owner}
use tl2_cpp.LocationSet.Entries.{index_of, staged_at, read_entry, write_entry}
use tl2_cpp.LocationSet.Hash.{HashVectorSet, register_write, register_read, find_write}
use tl2_cpp.LocationSet.Hash.Refine.{IsIndexed, vec-ops}
use tl2_cpp.LockGuard.{acquire, release}
use tl2_cpp.LockGuard.Acquire.{taken, firsts, held_after, acquire-taken}
use tl2_cpp.LockGuard.Release.{SameEntries, release-unlocks}
use tl2_cpp.Store.{Store}
use tl2_cpp.Tests.Concrete.{assoc}

unlock-lock_or_set_example :
    (is_locked 10 ≡ false)
    × (VersionLock.get_version 11 ≡ none)
    × (VersionLock.unlock 11 ≡ 10)
    × (VersionLock.get_version (VersionLock.unsafe_set_version 7 11) ≡ none)
    × (VersionLock.get_version (VersionLock.unlock (VersionLock.unsafe_set_version 7 11)) ≡ some 7)
unfolding VersionLock.lock
unlock-lock_or_set_example = unlock-lock_or_set (quiet 10) 7 {s = 11} refl (omega arith)

incr_version-next_example :
    ((VersionLock.incr_version 6).1 ≡ VersionLock.unsafe_get_version 6 + 1)
    × (is_locked (VersionLock.incr_version 6).0 ≡ is_locked 6)
    × (VersionLock.unsafe_get_version (VersionLock.incr_version 6).0
        ≡ (VersionLock.incr_version 6).1)
incr_version-next_example = incr_version-next 6 (omega arith)

-- The lock is held, then a spurious failure, then another thread, then a clear round.
abbrev rounds : List Round
rounds =
    quiet 11
    ∷ record { seen = 10; now = 10; spurious = true }
    ∷ record { seen = 10; now = 12; spurious = false }
    ∷ quiet 12
    ∷ []

lock_loop-acquires_example :
    (s : ℕ) × (VersionLock.lock_loop rounds ≡ some s)
    × (is_locked s ≡ true)
    × Among (Acquired s) rounds
lock_loop-acquires_example =
    lock_loop-acquires rounds (there (there (there (here (refl, refl, refl)))))

lock_loop_run : VersionLock.lock_loop rounds ≡ some 13
unfolding VersionLock.lock_loop VersionLock.lock
lock_loop_run = refl

get_version_loop-returns_example :
    (v : ℕ) × (VersionLock.get_version_loop (11 ∷ 12 ∷ []) ≡ some v)
    × Among (λ s. (is_locked s ≡ false) × (VersionLock.unsafe_get_version s ≡ v)) (11 ∷ 12 ∷ [])
get_version_loop-returns_example = get_version_loop-returns (11 ∷ 12 ∷ []) (there (here refl))

index_mono_window_example : index 400 ≤ index 404
index_mono_window_example = index_mono_window 400 404 refl (omega arith)

index_both_orders_example :
    (a₁ a₂ b₁ b₂ : ℕ) × (a₁ < a₂)
    × (b₁ < b₂)
    × (index a₁ ≡ 3)
    × (index a₂ ≡ 5)
    × (index b₁ ≡ 5)
    × (index b₂ ≡ 3)
index_both_orders_example = index_both_orders 3 5 (omega arith) (omega arith)

-- A set with one address in it.
abbrev one : HashVectorSet assoc
one = record { vec = new_location 4 ∷ []; map = (4, 0) ∷ [] }

one-IsIndexed : IsIndexed assoc one
unfolding index_of new_location
one-IsIndexed a = ground arith

abbrev table : LockTable
table = λ _. 10

abbrev no_cells : Store ℕ
no_cells = []

vec-ops_example :
    ((do s' ← register_read assoc 1 table 8 one; ok s'.vec) ≡ read_entry 1 table 8 one.vec)
    × ((do (s', st') ← register_write assoc 8 9 no_cells one; ok (s'.vec, st'))
        ≡ write_entry 8 9 no_cells one.vec)
    × (find_write assoc 8 one ≡ ok (staged_at 8 one.vec))
vec-ops_example = vec-ops assoc 1 table 8 9 no_cells one one-IsIndexed

abbrev two_locations : List Location
two_locations = new_location 4 ∷ new_location (4 + 2 ^ 24) ∷ new_location 8 ∷ []

acquire-taken_example :
    acquire 1 [] two_locations (taken table [])
    ≡ ok (
      map (mark_owner 1) two_locations,
      firsts [] two_locations,
      taken table (held_after [] two_locations),
    )
unfolding new_location
acquire-taken_example =
    acquire-taken 1 table [] two_locations (λ i. refl) (refl, (refl, (refl, tt)))

release-unlocks_example :
    (ls' : List Location) × (locks' : LockTable) × (release (4 ∷ 8 ∷ []) two_locations (λ _. 11)
      ≡ (ls', locks'))
    × SameEntries two_locations ls'
    × ((i : ℕ)
        → locks' i ≡ (if contains i (map index (4 ∷ 8 ∷ [])) then VersionLock.unlock 11 else 11))
unfolding new_location
release-unlocks_example = release-unlocks (4 ∷ 8 ∷ []) two_locations (λ _. 11) (refl, (refl, tt))
