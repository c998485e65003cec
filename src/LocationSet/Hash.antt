-- ===== src/LocationSet/Hash.antt =====
-- tl2/op.h, `LocationHashVectorSet`: a vector of locations, and a map from addresses to positions.
-- `m_vec[i]` out of range is undefined, a fault.
pub mod Refine
use tl2_cpp.Common.{
  ℕ, Bool, true, Option, none, some, List, [], ◌∷◌, ◌++◌, if◌then◌else◌, length, get_elem?, set,
}
use tl2_cpp.Common.Res.{Res, ok, live, ◌>>=◌}
use tl2_cpp.LockTable.{LockTable}
use tl2_cpp.Store.{Store}
use tl2_cpp.Location
use tl2_cpp.Location.{Location}
use tl2_cpp.LocationSet.Vendored.{AddrMap, Sorter}

pub record HashVectorSet (m : AddrMap) : Type 0 where
  pub vec : List Location
  pub map : m.Map

module _ (m : AddrMap) where
  unfoldable pub new : HashVectorSet m
  new = record { vec = []; map = m.empty }

  unfoldable pub register_write :
      {V : Type 0} → ℕ → V → Store V → HashVectorSet m → Res (HashVectorSet m × Store V)
  register_write a v st s = elim (m.find a s.map) [
    | some i ↦ do
      l ← live (get_elem? s.vec i)
      (l', st') ← Location.write v st l
      ok (record s { vec = set s.vec i l' }, st')
    | none ↦ do
      let map' = m.emplace a (length s.vec) s.map
      (l, st') ← Location.new_write a v st
      ok (record { vec = s.vec ++ l ∷ []; map = map' }, st')
  ]

  unfoldable pub register_read : ℕ → LockTable → ℕ → HashVectorSet m → Res (HashVectorSet m)
  register_read me locks a s = elim (m.find a s.map) [
    | some i ↦ do
      l ← live (get_elem? s.vec i)
      l' ← Location.read me locks l
      ok (record s { vec = set s.vec i l' })
    | none ↦ do
      let map' = m.emplace a (length s.vec) s.map
      l ← Location.new_read me locks a true
      ok (record { vec = s.vec ++ l ∷ []; map = map' })
  ]

  -- The vector is sorted; the map is left as it is.
  unfoldable pub stable_sort : Sorter → HashVectorSet m → HashVectorSet m
  stable_sort srt s = record s { vec = srt.sort (λ (l : Location). l.addr) s.vec }

  unfoldable pub find_write : ℕ → HashVectorSet m → Res (Option ℕ)
  find_write a s = elim (m.find a s.map) [
    | none ↦ ok none
    | some i ↦ do
      l ← live (get_elem? s.vec i)
      ok (if l.was_written then some (Location.val_addr l.write_val) else none)
  ]

  unfoldable pub size : HashVectorSet m → ℕ
  size s = length s.vec

  unfoldable pub clear : HashVectorSet m → HashVectorSet m
  clear s = record { vec = []; map = m.empty }
