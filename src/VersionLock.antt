-- ===== src/VersionLock.antt =====
-- tl2/version_lock.h: a version and a lock bit in one 64-bit atomic word.
-- `s & kLocked` is `s % 2`, `s & ~kLocked` is `s / 2 * 2`, `v << 1` is `v * 2 % 2 ^ 64`.
-- A loop that spins is one round of it, on the words that its accesses see; `none` is a round that
-- goes on to the next, and a list of rounds is a run of the loop.
pub mod Pack
pub mod Rounds
use tl2_cpp.Common.{
  ℕ, ◌+◌, ◌*◌, ◌/◌, ◌%◌, ◌^◌, Bool, true, false, Option, none, some, List, [], ◌∷◌, ◌==◌, ◌||◌,
  if◌then◌else◌,
}

abbrev pub k_locked : ℕ
k_locked = 1

abbrev pub k_version_inc : ℕ
k_version_inc = 2

abbrev pub word_mod : ℕ
word_mod = 2 ^ 64

-- `(s & kLocked) != 0`
abbrev pub is_locked : ℕ → Bool
is_locked s = s % 2 == 1

unfoldable pub pack : ℕ → Bool → ℕ
pack v locked = v * 2 % word_mod + (if locked then k_locked else 0)

unfoldable pub unpack_version : ℕ → ℕ
unpack_version s = s / 2

-- A round of the loop: the word that the load sees.
unfoldable pub get_version : ℕ → Option ℕ
unfolding unpack_version
get_version s = if is_locked s then none else some (unpack_version s)

unfoldable pub unsafe_get_version : ℕ → ℕ
unfolding unpack_version
unsafe_get_version s = unpack_version s

-- The word after the `fetch_add`, and what the call returns.
unfoldable pub incr_version : ℕ → ℕ × ℕ
unfolding unpack_version
incr_version s =
    let new_state = (s + k_version_inc) % word_mod in (new_state, unpack_version new_state)

-- What one round of a compare-exchange loop meets: the word loaded, the word at the exchange, and
-- whether the weak exchange fails spuriously.
pub record Round : Type 0 where
  pub seen : ℕ
  pub now : ℕ
  pub spurious : Bool

-- A round in which no other thread comes between the load and the exchange.
abbrev pub quiet : ℕ → Round
quiet s = record { seen = s; now = s; spurious = false }

-- The word that a round stores, if its exchange succeeds.
unfoldable pub set_version : ℕ → Round → Option ℕ
unfolding pack
set_version v r =
    if is_locked r.seen
    then none
    else if r.spurious
    then none
    else if r.seen == r.now
    then some (pack v false)
    else none

unfoldable pub unsafe_set_version : ℕ → ℕ → ℕ
unfolding pack
unsafe_set_version v s = pack v (is_locked s)

-- The lock bit of `seen` is clear, so `s | kLocked` adds one.
unfoldable pub lock : Round → Option ℕ
lock r =
    if is_locked r.seen
    then none
    else if r.spurious
    then none
    else if r.seen == r.now
    then some (r.seen + k_locked)
    else none

unfoldable pub unlock : ℕ → ℕ
unlock s = s / 2 * 2

-- The whole loop of `lock`, over the rounds that it meets: the word that it stores at last.
unfoldable pub lock_loop : List Round → Option ℕ
lock_loop [] = none
lock_loop (r ∷ rs) = let rest = lock_loop rs in elim (lock r) [ none ↦ rest | some s ↦ some s ]

-- The whole loop of `get_version`, over the words that its loads see.
unfoldable pub get_version_loop : List ℕ → Option ℕ
get_version_loop [] = none
get_version_loop (s ∷ ss) =
    let rest = get_version_loop ss in elim (get_version s) [ none ↦ rest | some v ↦ some v ]
