-- ===== src/Stm/TryCommit/Marked.antt =====
-- The locations of a transaction after its lock guard has marked and sorted them.
use mathlib.Core.List.{Permᴰ}
use mathlib.Core.Path.{subst₂}
use tl2_cpp.Common.{ℕ, ◌≡◌, refl, ◌∙◌, true, List, [], ◌∷◌, arith, contains, map, All, subst}
use tl2_cpp.VersionLock.Pack.{unsafe_get_version-add_one}
use tl2_cpp.LockTable.{LockTable, index}
use tl2_cpp.Store.{Store}
use tl2_cpp.Location.{Location, mark_owner}
use tl2_cpp.LocationSet.Entries.{index_of, IsDistinct}
use tl2_cpp.LocationSet.Entries.Owned.{staged_value}
use tl2_cpp.LockGuard.Acquire.{taken, locks_of}
use tl2_cpp.LockGuard.Release.{is_in}
use tl2_cpp.TVar.Alone.{IsFree}
use tl2_cpp.Stm.Commit.{IsMine, written_locks, is_valid}

module _ (me : ℕ) where
  pub mark_owner-IsMine : (ls : List Location) → All (IsMine me) (map (mark_owner me) ls)
  unfolding mark_owner
  mark_owner-IsMine [] = tt
  mark_owner-IsMine (l ∷ ls) = (refl, mark_owner-IsMine ls)

  index_of-mark_owner :
      (a : ℕ) (ls : List Location) → index_of a (map (mark_owner me) ls) ≡ index_of a ls
  unfolding mark_owner index_of
  index_of-mark_owner a [] = refl
  index_of-mark_owner a (l ∷ ls) = rw (index_of-mark_owner a ls)

  pub mark_owner-IsDistinct :
      (ls : List Location) → IsDistinct ls → IsDistinct (map (mark_owner me) ls)
  unfolding mark_owner
  mark_owner-IsDistinct [] d = tt
  mark_owner-IsDistinct (l ∷ ls) d =
      (index_of-mark_owner l.addr ls ∙ d.0, mark_owner-IsDistinct ls d.1)

  pub mark_owner-staged_value :
      {V : Type 0} (a : ℕ) (ls : List Location) (st : Store V)
      → staged_value a (map (mark_owner me) ls) st ≡ staged_value a ls st
  unfolding mark_owner staged_value
  mark_owner-staged_value a [] st = refl
  mark_owner-staged_value a (l ∷ ls) st = rw (mark_owner-staged_value a ls st)

  pub mark_owner-written_locks :
      (ls : List Location) → written_locks (map (mark_owner me) ls) ≡ written_locks ls
  unfolding mark_owner
  mark_owner-written_locks [] = refl
  mark_owner-written_locks (l ∷ ls) = rw (mark_owner-written_locks ls)

  mark_owner-is_in : (a : ℕ) (ls : List Location) → is_in a (map (mark_owner me) ls) ≡ is_in a ls
  unfolding mark_owner
  mark_owner-is_in a [] = refl
  mark_owner-is_in a (l ∷ ls) = rw (mark_owner-is_in a ls)

  pub is_in-mark_owner :
      (ls : List Location) (bs : List ℕ)
      → All (λ a. is_in a ls ≡ true) bs
      → All (λ a. is_in a (map (mark_owner me) ls) ≡ true) bs
  is_in-mark_owner ls [] h = tt
  is_in-mark_owner ls (b ∷ bs) h = (mark_owner-is_in b ls ∙ h.0, is_in-mark_owner ls bs h.1)

  -- Taking locks changes no version, so the validation answers for the table before.
  pub is_valid-taken :
      (rv : ℕ) (base : LockTable) (held : List ℕ) (ls : List Location)
      → IsFree base
      → is_valid rv (taken base held) (map (mark_owner me) ls) ≡ is_valid rv base ls
  unfolding mark_owner
  is_valid-taken rv base held [] free = refl
  is_valid-taken rv base held (l ∷ ls) free = ground (
    arith,
    is_valid-taken rv base held ls free,
    unsafe_get_version-add_one (base (index l.addr)) (free (index l.addr)),
  )

pub is_valid-perm :
    (rv : ℕ) (locks : LockTable) {ls ls' : List Location}
    → Permᴰ ls ls'
    → is_valid rv locks ls' ≡ is_valid rv locks ls
is_valid-perm rv locks Permᴰ.nil = refl
is_valid-perm rv locks (Permᴰ.cons {a} {l₁} {l₂} e d) =
    subst (λ x. is_valid rv locks (x ∷ l₂) ≡ is_valid rv locks (a ∷ l₁)) e
      (rw (is_valid-perm rv locks d))
is_valid-perm rv locks (Permᴰ.swap {a} {b} {l} e f) =
    subst₂ (λ x y. is_valid rv locks (x ∷ y ∷ l) ≡ is_valid rv locks (a ∷ b ∷ l)) f e (ground arith)
is_valid-perm rv locks (Permᴰ.trans d f) = is_valid-perm rv locks f ∙ is_valid-perm rv locks d

pub written_locks-perm :
    (i : ℕ) {ls ls' : List Location}
    → Permᴰ ls ls'
    → contains i (written_locks ls') ≡ contains i (written_locks ls)
written_locks-perm i Permᴰ.nil = refl
written_locks-perm i (Permᴰ.cons {a} {l₁} {l₂} e d) =
    subst (λ x. contains i (written_locks (x ∷ l₂)) ≡ contains i (written_locks (a ∷ l₁))) e
      (ground (arith, written_locks-perm i d))
written_locks-perm i (Permᴰ.swap {a} {b} {l} e f) =
    subst₂ (λ x y. contains i (written_locks (x ∷ y ∷ l)) ≡ contains i (written_locks (a ∷ b ∷ l)))
      f e (ground arith)
written_locks-perm i (Permᴰ.trans d f) = written_locks-perm i f ∙ written_locks-perm i d

-- A location that was written has its lock among those of the locations.
pub written-locks_of :
    (i : ℕ) (ls : List Location)
    → contains i (written_locks ls) ≡ true
    → contains i (locks_of ls) ≡ true
written-locks_of i [] h = h
written-locks_of i (l ∷ ls) h = ground (arith, written-locks_of i ls)
