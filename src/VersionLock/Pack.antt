-- ===== src/VersionLock/Pack.antt =====
-- The word of tl2/version_lock.h: its version and its lock bit.
use tl2_cpp.Common.{ℕ, ◌+◌, ◌^◌, ◌<◌, ◌≡◌, Bool, true, false, none, some, arith}
use tl2_cpp.VersionLock.{
  is_locked, pack, unpack_version, get_version, unsafe_get_version, incr_version, Round, quiet,
  unsafe_set_version, lock, unlock,
}

-- A packed word fits 64 bits and gives back its version and its lock bit, for every version below
-- 2 ^ 63.
pub unpack_version-pack :
    (v : ℕ) (locked : Bool)
    → v < 2 ^ 63
    → (unpack_version (pack v locked) ≡ v)
      × (is_locked (pack v locked) ≡ locked)
      × (pack v locked < 2 ^ 64)
unfolding unpack_version pack
unpack_version-pack v true h = ground arith
unpack_version-pack v false h = ground arith

-- A round of `lock` that stores a word has found the lock free at the exchange; the stored word is
-- locked, has the same version, and `unlock` gives back the word that stood there.
pub unlock-lock :
    (r : Round) {s : ℕ}
    → lock r ≡ some s
    → (is_locked r.now ≡ false)
      × (is_locked s ≡ true)
      × (unsafe_get_version s ≡ unsafe_get_version r.now)
      × (unlock s ≡ r.now)
unfolding lock unlock unsafe_get_version
unlock-lock r h = ground arith

-- A version stored under the lock stays hidden from `get_version` until `unlock`, which shows it.
pub get_version-unsafe_set_version :
    (v s : ℕ)
    → v < 2 ^ 63
    → is_locked s ≡ true
    → (get_version (unsafe_set_version v s) ≡ none)
      × (unsafe_get_version (unsafe_set_version v s) ≡ v)
      × (get_version (unlock (unsafe_set_version v s)) ≡ some v)
unfolding get_version unsafe_get_version unsafe_set_version unlock
get_version-unsafe_set_version v s h k = rw k (ground arith)

-- A round of `lock` that stores a word has found the lock free at the exchange, and leaves it held:
-- `get_version` then waits. `unlock` gives back the word that stood there; if a version below 2 ^ 63
-- has been stored under the lock, it stays hidden until then, and `get_version` shows it afterwards.
pub unlock-lock_or_set :
    (r : Round) (v : ℕ) {s : ℕ}
    → lock r ≡ some s
    → v < 2 ^ 63
    → (is_locked r.now ≡ false)
      × (get_version s ≡ none)
      × (unlock s ≡ r.now)
      × (get_version (unsafe_set_version v s) ≡ none)
      × (get_version (unlock (unsafe_set_version v s)) ≡ some v)
unfolding get_version
unlock-lock_or_set r v h lt =
    let (free, held, same, back) = unlock-lock r h in
    let (hidden, stored, shown) = get_version-unsafe_set_version v _ lt held in
    (free, ground (arith, held), back, hidden, shown)

-- While the version is below its largest value, `incr_version` returns the next one, leaves the
-- lock bit as it is, and does not wrap.
pub incr_version-next :
    (s : ℕ)
    → s + 2 < 2 ^ 64
    → ((incr_version s).1 ≡ unsafe_get_version s + 1)
      × (is_locked (incr_version s).0 ≡ is_locked s)
      × (unsafe_get_version (incr_version s).0 ≡ (incr_version s).1)
unfolding incr_version unsafe_get_version
incr_version-next s h = ground arith

pub lock-quiet : (s : ℕ) → is_locked s ≡ false → lock (quiet s) ≡ some (s + 1)
unfolding lock
lock-quiet s h = ground arith

pub is_locked-lock : (s : ℕ) → is_locked s ≡ false → is_locked (s + 1) ≡ true
is_locked-lock s h = ground arith

pub unlock-add_one : (s : ℕ) → is_locked s ≡ false → unlock (s + 1) ≡ s
unfolding unlock
unlock-add_one s h = ground arith

pub unsafe_get_version-add_one :
    (s : ℕ) → is_locked s ≡ false → unsafe_get_version (s + 1) ≡ unsafe_get_version s
unfolding unsafe_get_version
unsafe_get_version-add_one s h = ground arith
