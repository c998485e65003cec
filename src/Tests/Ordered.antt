-- ===== src/Tests/Ordered.antt =====
-- The theorems on the ordered location set at concrete inputs.
use tl2_cpp.Common.{ℕ, ◌≡◌, refl, true, some, List, [], ◌∷◌, arith}
use tl2_cpp.Common.Res.{ok}
use tl2_cpp.Location
use tl2_cpp.Location.{Location, staged, new_location}
use tl2_cpp.LockTable.{LockTable}
use tl2_cpp.LocationSet.Ordered.{find, register_write}
use tl2_cpp.LocationSet.Ordered.Lookup.{Holds, register_write-Holds}
use tl2_cpp.Store.{Store, construct}

abbrev two : List Location
two = new_location 4 ∷ new_location 8 ∷ []

abbrev empty : Store ℕ
empty = []

abbrev table : LockTable
table = λ _. 10

-- Address 6, written once.
abbrev six : Location
six = record (new_location 6) { write_val = staged 0; was_written = true }

register_write-Holds_example :
    (set' : List Location) × (register_write 6 9 empty two ≡ ok (set', some 9 ∷ []))
    × Holds 6 six two set'
unfolding find new_location Location.write construct
register_write-Holds_example =
    register_write-Holds 6 9 empty two {x = six} {st' = some 9 ∷ []} (omega arith, tt) refl
