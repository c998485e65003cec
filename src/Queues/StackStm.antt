-- ===== src/Queues/StackStm.antt =====
-- .graphs/coarse_stack/coarse_stack.h, `StackSTM`. A body is what it does at once; `p` is the
-- address of the new node. Popped nodes stay allocated. The state is the value of `top`.
pub mod Lifo
use tl2_cpp.Common.{ℕ, Bool, Option, none, some, ◌==◌, if◌then◌else◌}
use tl2_cpp.Common.Res.{Res, ok, ◌>>=◌}
use tl2_cpp.Heap.{Node, Heap, null, at, construct}

-- `StackSTM`, by the value of `top`
abbrev pub StackStm : Type 0
StackStm = ℕ

-- The constructor.
abbrev pub new : StackStm
new = null

unfoldable pub empty : StackStm → Bool
empty top = top == null

module _ {T : Type 0} where
  unfoldable pub push : ℕ → T → StackStm → Heap T → StackStm × Heap T
  push p x top h = (p, construct h p x top)

  unfoldable pub try_pop : StackStm → Heap T → Res (Option T × StackStm)
  try_pop top h = do
    let there = (do n ← at h top; ok (some n.data_of, n.next))
    if top == null then ok (none, top) else there
