-- ===== src/LocationSet/Ordered.antt =====
-- tl2/op.h, `LocationSetCompare` and `LocationOrderedSet`.
-- `std::set` is the list of its items in the order of the comparator, which every search follows
-- from the front. The members that `read` and `write` change are mutable, so an item that is found
-- is changed in place.
pub mod Lookup
use tl2_cpp.Common.{
  ℕ, Bool, true, false, Option, none, some, List, [], ◌∷◌, ltb, if◌then◌else◌, length,
}
use tl2_cpp.Common.Res.{Res, ok, ◌>>=◌}
use tl2_cpp.LockTable.{LockTable}
use tl2_cpp.Store.{Store}
use tl2_cpp.Location
use tl2_cpp.Location.{Location, new_location}

-- `LocationSetCompare`
abbrev pub less : Location → Location → Bool
less a b = ltb a.addr b.addr

-- `Set::find(Location(addr))`
unfoldable pub find : ℕ → List Location → Option Location
find a [] = none
find a (l ∷ ls) =
    if less l (new_location a) then find a ls else if less (new_location a) l then none else some l

-- The item that is found, with another in its place.
unfoldable pub replace : ℕ → Location → List Location → List Location
replace a x [] = []
replace a x (l ∷ ls) =
    if less l (new_location a)
    then l ∷ replace a x ls
    else if less (new_location a) l
    then l ∷ ls
    else x ∷ ls

-- `Set::insert`, and whether the item was inserted.
unfoldable pub insert : Location → List Location → List Location × Bool
insert x [] = (x ∷ [], true)
insert x (l ∷ ls) =
    if less l x
    then (l ∷ (insert x ls).0, (insert x ls).1)
    else if less x l
    then (x ∷ l ∷ ls, true)
    else (l ∷ ls, false)

unfoldable pub find_write : ℕ → List Location → Option ℕ
find_write a set = elim (find a set) [
  | none ↦ none
  | some l ↦ if l.was_written then some (Location.val_addr l.write_val) else none
]

module _ {V : Type 0} where
  unfoldable pub register_write : ℕ → V → Store V → List Location → Res (List Location × Store V)
  register_write a v st set = elim (find a set) [
    | some l ↦ do (l', st') ← Location.write v st l; ok (replace a l' set, st')
    | none ↦ do (loc, st') ← Location.write v st (new_location a); ok ((insert loc set).0, st')
  ]

-- `itr->read()`, on the item that is there.
unfoldable pub read_found : ℕ → LockTable → ℕ → List Location → Res (List Location)
read_found me locks a set = elim (find a set) [
  | none ↦ ok set
  | some l ↦ do l' ← Location.read me locks l; ok (replace a l' set)
]

-- `Location(addr, true)` reads before it is known whether the item is new.
unfoldable pub register_read : ℕ → LockTable → ℕ → List Location → Res (List Location)
register_read me locks a set = do
  loc ← Location.new_read me locks a true
  if (insert loc set).1 then ok (insert loc set).0 else read_found me locks a set

unfoldable pub size : List Location → ℕ
size set = length set

unfoldable pub clear : List Location → List Location
clear set = []

-- The set is in order all the time.
unfoldable pub stable_sort : List Location → List Location
stable_sort set = set
