-- ===== src/Queues/QueueBench.antt =====
-- .graphs/queue/bench.cc: what a thread of its benchmark does with the `STMQueue`. `i` is the number
-- of the round, and `p` the address that `new` gives next.
pub mod Rounds
use tl2_cpp.Common.{ℕ, zero, suc, ◌+◌, ◌%◌, ◌^◌, ◌==◌, if◌then◌else◌}
use tl2_cpp.Common.Res.{Res, ok, ◌>>=◌}
use tl2_cpp.Heap.{Heap}
use tl2_cpp.Queues.StmQueue.{StmQueue, enqueue, dequeue}

-- An `int` by its distance from INT_MIN. The even rounds enqueue, the odd ones dequeue.
unfoldable pub alternate : ℕ → ℕ → ℕ → StmQueue → Heap ℕ → Res (StmQueue × Heap ℕ)
alternate zero i p q h = ok (q, h)
alternate (suc ops) i p q h = do
  let enqueues = (do (q', h') ← enqueue p (i + 2 ^ 31) q h; alternate ops (suc i) (suc p) q' h')
  let dequeues = (do (_, q') ← dequeue q h; alternate ops (suc i) p q' h)
  if i % 2 == 0 then enqueues else dequeues
