-- ===== src/LocationSet/Entries.antt =====
-- Lists of locations: the reference description of a location set, by linear search.
pub mod Index
pub mod Read
pub mod Write
pub mod Owned
pub mod Permuted
use tl2_cpp.Common.{
  ℕ, suc, ◌≡◌, refl, Bool, true, false, Option, none, some, List, [], ◌∷◌, ◌++◌, ◌==◌,
  if◌then◌else◌, ◌||◌, ◌&&◌, length, get_elem?, set, arith, Bool-cases,
}
use mathlib.Core.Option
use tl2_cpp.Common.Res.{Res, ok, live, ◌>>=◌}
use tl2_cpp.LockTable.{LockTable}
use tl2_cpp.Store.{Store}
use tl2_cpp.Location
use tl2_cpp.Location.{Location}

-- The position of the entry for an address.
unfoldable pub index_of : ℕ → List Location → Option ℕ
index_of a [] = none
index_of a (l ∷ ls) = if l.addr == a then some 0 else Option.map suc (index_of a ls)

-- No address has two entries.
abbrev pub IsDistinct : List Location → Type 0
IsDistinct [] = Unit
IsDistinct (l ∷ ls) = (index_of l.addr ls ≡ none) × IsDistinct ls

-- An entry noted for reading: the one that is there, or a new one at the end.
unfoldable pub read_entry : ℕ → LockTable → ℕ → List Location → Res (List Location)
read_entry me locks a [] = do l ← Location.new_read me locks a true; ok (l ∷ [])
read_entry me locks a (l ∷ ls) =
    if l.addr == a
    then (do l' ← Location.read me locks l; ok (l' ∷ ls))
    else (do ls' ← read_entry me locks a ls; ok (l ∷ ls'))

-- An entry noted for writing.
unfoldable pub write_entry :
    {V : Type 0} → ℕ → V → Store V → List Location → Res (List Location × Store V)
write_entry a v st [] = do (l, st') ← Location.new_write a v st; ok (l ∷ [], st')
write_entry a v st (l ∷ ls) =
    if l.addr == a
    then (do (l', st') ← Location.write v st l; ok (l' ∷ ls, st'))
    else (do (ls', st') ← write_entry a v st ls; ok (l ∷ ls', st'))

-- Whether an entry for the address is marked as read.
unfoldable pub has_read : ℕ → List Location → Bool
has_read a [] = false
has_read a (l ∷ ls) = l.was_read && (l.addr == a) || has_read a ls

-- The object staged for an address, as `find_write` answers.
unfoldable pub staged_at : ℕ → List Location → Option ℕ
staged_at a [] = none
staged_at a (l ∷ ls) =
    if l.addr == a
    then (if l.was_written then some (Location.val_addr l.write_val) else none)
    else staged_at a ls
