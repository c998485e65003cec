-- ===== src/Queues/BoundedQueue.antt =====
-- .graphs/bounded_queue/bounded_queue.h, `BoundedQueue`. An attempt of a body is what it does at
-- once; `success` of `try_enq` is assigned at each attempt, so the last one decides. The slots of
-- `items` are a function from their index; `size_t` wraps at 2 ^ 64.
pub mod Ring
pub mod Sequence
use tl2_cpp.Common.{
  ℕ, ◌+◌, ◌-◌, ◌%◌, ◌^◌, Bool, true, false, List, [], ◌∷◌, ◌==◌, if◌then◌else◌, update,
}

pub record BoundedQueue (T : Type 0) : Type 0 where
  pub _capacity : ℕ
  pub items : ℕ → T
  pub head : ℕ
  pub tail : ℕ

module _ {T : Type 0} where
  -- The constructor, with the default item.
  abbrev pub new : T → ℕ → BoundedQueue T
  new blank cap = record { _capacity = cap; items = λ i. blank; head = 0; tail = 0 }

  unfoldable pub size : BoundedQueue T → ℕ
  size q = (q.tail + 2 ^ 64 - q.head) % 2 ^ 64

  unfoldable pub enq_tx : T → BoundedQueue T → Bool × BoundedQueue T
  enq_tx x q = if (q.tail + 2 ^ 64 - q.head) % 2 ^ 64 == q._capacity then (false, q) else (
    true,
    record q { items = update q.items (q.tail % q._capacity) x; tail = (q.tail + 1) % 2 ^ 64 },
  )

  unfoldable pub deq_tx : T → BoundedQueue T → (Bool × T) × BoundedQueue T
  deq_tx blank q =
      if q.tail == q.head
      then ((false, blank), q)
      else ((true, q.items (q.head % q._capacity)), record q { head = (q.head + 1) % 2 ^ 64 })

  unfoldable pub try_enq : T → BoundedQueue T → Bool × BoundedQueue T
  try_enq x q = enq_tx x q

  -- An attempt of `try_deq`: `success` and `out` before and after it.
  unfoldable pub deq_attempt : T → Bool × T → BoundedQueue T → (Bool × T) × BoundedQueue T
  deq_attempt blank (success, out) q =
      let (res, q') = deq_tx blank q in if res.0 then ((true, res.1), q') else ((success, out), q')

  -- What the aborted attempts leave in `success` and `out`, which `atomically` does not restore.
  -- Each attempt has read the queue as it stands in the list, and its writes are dropped.
  unfoldable pub aborted : T → Bool × T → List (BoundedQueue T) → Bool × T
  aborted blank flags [] = flags
  aborted blank flags (q ∷ qs) = aborted blank (deq_attempt blank flags q).0 qs

  -- The result and what it stores to `out`: the attempts that abort, and the one that commits.
  unfoldable pub try_deq :
      T → T → List (BoundedQueue T) → BoundedQueue T → (Bool × T) × BoundedQueue T
  try_deq blank out qs q = deq_attempt blank (aborted blank (false, out) qs) q
