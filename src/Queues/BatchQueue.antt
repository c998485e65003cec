-- ===== src/Queues/BatchQueue.antt =====
-- .graphs/queue/batch_bench.cc: its `STMQueue`, a ring with the fields of `BoundedQueue`, and what a
-- thread of each benchmark does. An `int` is the number that is larger by 2 ^ 31. The first argument
-- of a loop is the number of rounds that are left, `i` the number of the round. A call is what its
-- committing attempt does; `success` and `result`, which an aborted attempt may have set, are those of
-- that attempt.
pub mod Batch
use tl2_cpp.Common.{
  ℕ, zero, suc, ◌+◌, ◌-◌, ◌%◌, ◌^◌, Bool, true, false, Option, none, some, ◌==◌, if◌then◌else◌,
  update,
}
use tl2_cpp.Common.Res.{Res, ok, ◌>>=◌}
use tl2_cpp.Queues.BoundedQueue.{BoundedQueue}
use tl2_cpp.Bank.Account.{sum}

module _ {T : Type 0} where
  abbrev pub new : T → ℕ → BoundedQueue T
  new blank cap = record { _capacity = cap; items = λ i. blank; head = 0; tail = 0 }

  unfoldable pub try_enqueue : T → BoundedQueue T → Bool × BoundedQueue T
  try_enqueue x q =
      let h = q.head in
      let t = q.tail in
      if (t + 2 ^ 64 - h) % 2 ^ 64 == q._capacity
      then (false, q)
      else (true, record q { items = update q.items (t % q._capacity) x; tail = (t + 1) % 2 ^ 64 })

  unfoldable pub try_dequeue : BoundedQueue T → Option T × BoundedQueue T
  try_dequeue q =
      let h = q.head in
      let t = q.tail in
      if t == h
      then (none, q)
      else (some (q.items (h % q._capacity)), record q { head = (h + 1) % 2 ^ 64 })

-- `if (v) dummy += *v;`
unfoldable pub tally : Option ℕ → ℕ → Res ℕ
tally none dummy = ok dummy
tally (some v) dummy = sum dummy v

-- The rounds of a thread of `bench_low_contention` and of `bench_read_heavy`: each `period`th
-- enqueues, the others dequeue.
unfoldable pub rounds : ℕ → ℕ → ℕ → ℕ → BoundedQueue ℕ → Res (ℕ × BoundedQueue ℕ)
rounds zero period i dummy q = ok (dummy, q)
rounds (suc ops) period i dummy q = do
  let enqueues = rounds ops period (suc i) dummy (try_enqueue (i + 2 ^ 31) q).1
  let dequeues = (do
    let (v, q') = try_dequeue q
    dummy' ← tally v dummy
    rounds ops period (suc i) dummy' q')
  if i % period == 0 then enqueues else dequeues

unfoldable pub low_contention : ℕ → BoundedQueue ℕ → Res (ℕ × BoundedQueue ℕ)
low_contention ops q = rounds ops 2 0 (2 ^ 31) q

unfoldable pub read_heavy : ℕ → BoundedQueue ℕ → Res (ℕ × BoundedQueue ℕ)
read_heavy ops q = rounds ops 10 0 (2 ^ 31) q

-- The transaction of `bench_batch`: the calls in it are nested, and are one step with it.
unfoldable pub batch : ℕ → ℕ → ℕ → BoundedQueue ℕ → BoundedQueue ℕ
batch zero i k q = q
batch (suc n) i k q = batch n i (suc k) (try_dequeue (try_enqueue (i + k + 2 ^ 31) q).1).1

-- A thread of `bench_batch`.
unfoldable pub batches : ℕ → ℕ → BoundedQueue ℕ → BoundedQueue ℕ
batches zero i q = q
batches (suc ops) i q = batches ops (suc i) (batch 10 i 0 q)
