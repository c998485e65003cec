-- ===== src/Queues/StmQueue.antt =====
-- .graphs/queue/queue.h, `STMQueue`. A body is what it does at once; `p` is the address of the new
-- node, which is allocated outside of the transaction.
pub mod Fifo
use tl2_cpp.Common.{ℕ, Option, none, some, ◌==◌, if◌then◌else◌}
use tl2_cpp.Common.Res.{Res, ok, ◌>>=◌}
use tl2_cpp.Heap.{Node, Heap, null, at, construct, set_next}

pub record StmQueue : Type 0 where
  pub head : ℕ
  pub tail : ℕ

module _ {T : Type 0} where
  -- The constructor, with the default item.
  abbrev pub new : T → ℕ → Heap T → StmQueue × Heap T
  new blank dummy h = (record { head = dummy; tail = dummy }, construct h dummy blank null)

  unfoldable pub enqueue : ℕ → T → StmQueue → Heap T → Res (StmQueue × Heap T)
  enqueue p x q h = do h' ← set_next (construct h p x null) q.tail p; ok (record q { tail = p }, h')

  unfoldable pub dequeue : StmQueue → Heap T → Res (Option T × StmQueue)
  dequeue q h = do
    dummy ← at h q.head
    let there = (do n ← at h dummy.next; ok (some n.data_of, record q { head = dummy.next }))
    if dummy.next == null then ok (none, q) else there
