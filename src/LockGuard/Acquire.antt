-- ===== src/LockGuard/Acquire.antt =====
-- The constructor of tl2/lock_guard.h: which locks it takes from a free table.
use tl2_cpp.Common.{
  ℕ, ◌+◌, ◌≡◌, refl, fun_ext, true, false, none, List, [], ◌∷◌, ◌||◌, arith, if◌then◌else◌,
  contains, map, All, inl, inr, Bool-cases, update,
}
use tl2_cpp.Common.Res.{ok}
use tl2_cpp.VersionLock.{is_locked}
use tl2_cpp.VersionLock.Pack.{lock-quiet}
use tl2_cpp.LockTable.{LockTable, index}
use tl2_cpp.Location
use tl2_cpp.Location.{Location, lock_ptr, mark_owner}
use tl2_cpp.LocationSet.Entries.Owned.{IsUnowned}
use tl2_cpp.TVar.Alone.{IsFree}
use tl2_cpp.LockGuard.{acquire}

-- The table `base`, with the locks of a list taken.
abbrev pub taken : LockTable → List ℕ → LockTable
taken base held i = if contains i held then base i + 1 else base i

-- The locks of the locations.
abbrev pub locks_of : List Location → List ℕ
locks_of [] = []
locks_of (l ∷ ls) = index l.addr ∷ locks_of ls

-- The addresses of the locations whose lock no location before them has, nor `held`.
unfoldable pub firsts : List ℕ → List Location → List ℕ
firsts held [] = []
firsts held (l ∷ ls) = elim (contains (index l.addr) held) [
  | true ↦ firsts held ls
  | false ↦ l.addr ∷ firsts (index l.addr ∷ held) ls
]

-- The locks held when the constructor is through.
unfoldable pub held_after : List ℕ → List Location → List ℕ
held_after held [] = held
held_after held (l ∷ ls) = elim (contains (index l.addr) held) [
  | true ↦ held_after held ls
  | false ↦ held_after (index l.addr ∷ held) ls
]

taken-cons :
    (base : LockTable) (held : List ℕ) (i : ℕ)
    → contains i held ≡ false
    → update (taken base held) i (base i + 1) ≡ taken base (i ∷ held)
taken-cons base held i h = fun_ext λ j. ground arith

lock-free :
    (me : ℕ) (l : Location) (locks : LockTable) (s : ℕ)
    → l.owner ≡ none
    → locks (index l.addr) ≡ s
    → is_locked s ≡ false
    → Location.lock me locks l ≡ ok (true, mark_owner me l, update locks (index l.addr) (s + 1))
unfolding Location.lock
lock-free me l locks s u e free = rw (u, e, lock-quiet s free)

-- From a free table with the locks `held` taken since, for locations that nobody owns, the
-- constructor takes each further lock once, keeps the first location of each, and marks every
-- location.
pub acquire-taken :
    (me : ℕ) (base : LockTable) (held : List ℕ) (ls : List Location)
    → IsFree base
    → All IsUnowned ls
    → acquire me held ls (taken base held)
      ≡ ok (map (mark_owner me) ls, firsts held ls, taken base (held_after held ls))
unfolding acquire firsts held_after lock_ptr
acquire-taken me base held [] free u = refl
acquire-taken me base held (l ∷ ls) free u = elim (Bool-cases (contains (index l.addr) held)) [
  | inl old ↦ rw (old, acquire, firsts, held_after) (rw (acquire-taken me base held ls free u.1))
  | inr new ↦
      rw (new, acquire, firsts, held_after)
        (rw (
          lock-free me l (taken base held) (base (index l.addr)) u.0 (rw new) (free (index l.addr)),
          taken-cons base held (index l.addr) new,
          acquire-taken me base (index l.addr ∷ held) ls free u.1,
        ))
]

-- The locks held at the end are those held before and those of the locations.
pub contains-held_after :
    (i : ℕ) (held : List ℕ) (ls : List Location)
    → contains i (held_after held ls) ≡ (contains i held || contains i (locks_of ls))
unfolding held_after
contains-held_after i held [] = ground arith
contains-held_after i held (l ∷ ls) =
    ground (arith, contains-held_after i held ls, contains-held_after i (index l.addr ∷ held) ls)
