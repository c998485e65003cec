-- ===== src/Store.antt =====
-- tl2/memory.h: the buffer that holds the staged values of a transaction (`PerThreadPolicy`).
-- An object's address is its index in the buffer; `none` is an object whose destructor has run.
pub mod Cells
use tl2_cpp.Common.{ℕ, Option, none, some, List, [], ◌∷◌, ◌++◌, length, get_elem?, set}
use tl2_cpp.Common.Res.{Res, ok, live, ◌>>=◌}

abbrev pub Store : Type 0 → Type 0
Store V = List (Option V)

module _ {V : Type 0} where
  -- `allocate`, and the object that the caller constructs there.
  unfoldable pub construct : V → Store V → ℕ × Store V
  construct v st = (length st, st ++ some v ∷ [])

  unfoldable pub cell : ℕ → Store V → Option V
  cell p st = elim (get_elem? st p) [ none ↦ none | some c ↦ c ]

  -- How many objects live at an address: one or none.
  unfoldable pub alive : ℕ → Store V → ℕ
  unfolding cell
  alive p st = elim (cell p st) [ none ↦ 0 | some _ ↦ 1 ]

  -- The object at an address.
  unfoldable pub value : ℕ → Store V → Res V
  unfolding cell
  value p st = live (cell p st)

  -- An assignment to a live object.
  unfoldable pub assign : ℕ → V → Store V → Res (Store V)
  assign p v st = do _ ← value p st; ok (set st p (some v))

  -- `m_destructor(m_val)`: to destroy a dead object is undefined.
  unfoldable pub destroy : ℕ → Store V → Res (Store V)
  destroy p st = do _ ← value p st; ok (set st p none)

  -- `res.release()`
  unfoldable pub release : Store V → Store V
  release _ = []
