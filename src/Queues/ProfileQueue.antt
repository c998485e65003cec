-- ===== src/Queues/ProfileQueue.antt =====
-- perf/profile_queue.cc has a `BoundedQueue` of its own, with the fields of the one of .graphs/. Each
-- attempt assigns the result, so a call is what its last one does.
use tl2_cpp.Common.{
  ℕ, ◌+◌, ◌-◌, ◌%◌, ◌^◌, ◌≡◌, refl, Bool, true, false, [], Option, none, some, ◌==◌, if◌then◌else◌,
  update, Bool-cases, inl, inr,
}
use tl2_cpp.Queues.BoundedQueue
use tl2_cpp.Queues.BoundedQueue.{BoundedQueue}

module _ {T : Type 0} where
  unfoldable pub size : BoundedQueue T → ℕ
  size q = (q.tail + 2 ^ 64 - q.head) % 2 ^ 64

  unfoldable pub try_enq : T → BoundedQueue T → Bool × BoundedQueue T
  try_enq x q =
      let h = q.head in
      let t = q.tail in
      if (t + 2 ^ 64 - h) % 2 ^ 64 == q._capacity
      then (false, q)
      else (true, record q { items = update q.items (t % q._capacity) x; tail = (t + 1) % 2 ^ 64 })

  unfoldable pub try_deq : BoundedQueue T → Option T × BoundedQueue T
  try_deq q =
      let h = q.head in
      let t = q.tail in
      if t == h
      then (none, q)
      else (some (q.items (h % q._capacity)), record q { head = (h + 1) % 2 ^ 64 })

  -- A result and what is stored, as one answer.
  abbrev pub answer : Bool × T → Option T
  answer (true, x) = some x
  answer (false, x) = none

  -- The operations are those of the queue of .graphs/ where none of its attempts aborts: its
  -- `try_deq` answers whether there was an item and stores it.
  pub profile-ops :
      (x blank out : T) (q : BoundedQueue T)
      → (try_enq x q ≡ BoundedQueue.try_enq x q)
        × (try_deq q ≡ (
          answer (BoundedQueue.try_deq blank out [] q).0,
          (BoundedQueue.try_deq blank out [] q).1,
        ))
        × (size q ≡ BoundedQueue.size q)
  unfolding try_enq try_deq size BoundedQueue.try_enq BoundedQueue.try_deq BoundedQueue.aborted
      BoundedQueue.deq_attempt BoundedQueue.enq_tx BoundedQueue.deq_tx BoundedQueue.size
  profile-ops x blank out q =
      (refl, elim (Bool-cases (q.tail == q.head)) [ inl e ↦ rw e refl | inr n ↦ rw n refl ], refl)
