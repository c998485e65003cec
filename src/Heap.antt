-- ===== src/Heap.antt =====
-- Nodes of the linked structures of zoo/, graphs/ and .graphs/, by their addresses.
-- `new` returns an address of its own choice, which is an argument here; no live node has it.
pub mod Cells
pub mod Relink
use tl2_cpp.Common.{ℕ, Option, none, some, ◌==◌, if◌then◌else◌, update}
use tl2_cpp.Common.Res.{Res, ok, fault, live, ◌>>=◌}

-- A node: its data, and the pointer to its successor.
pub record Node (D : Type 0) : Type 0 where
  pub data_of : D
  pub next : ℕ

module _ {D : Type 0} where
  abbrev pub node : D → ℕ → Node D
  node d q = record { data_of = d; next = q }

abbrev pub Heap : Type 0 → Type 0
Heap D = ℕ → Option (Node D)

-- `nullptr`
abbrev pub null : ℕ
null = 0

module _ {D : Type 0} where
  -- `*p`; undefined where `p` is null or its node is deleted.
  unfoldable pub at : Heap D → ℕ → Res (Node D)
  at h p = if p == null then fault else live (h p)

  -- `new Node(d, q)`
  abbrev pub construct : Heap D → ℕ → D → ℕ → Heap D
  construct h p d q = update h p (some (node d q))

  -- `p->next = q`
  unfoldable pub set_next : Heap D → ℕ → ℕ → Res (Heap D)
  unfolding at
  set_next h p q = do n ← at h p; ok (update h p (some (record n { next = q })))

  -- `p->item = d`
  unfoldable pub set_data : Heap D → ℕ → D → Res (Heap D)
  unfolding at
  set_data h p d = do n ← at h p; ok (update h p (some (record n { data_of = d })))

  -- `delete p`, which does nothing for `nullptr`.
  unfoldable pub delete : Heap D → ℕ → Res (Heap D)
  unfolding at
  delete h p = if p == null then ok h else (do n ← at h p; ok (update h p none))
