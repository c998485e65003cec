-- ===== src/Queues/BatchQueue/Batch.antt =====
-- The transaction of `bench_batch` on a queue with room.
use tl2_cpp.Common.{
  ℕ, zero, suc, ◌+◌, ◌-◌, ◌%◌, ◌^◌, ◌<◌, ◌≤◌, ◌≡◌, refl, ◌∙◌, subst, Bool, true, false, List, [],
  ◌∷◌, ◌++◌, ◌==◌, if◌then◌else◌, length, ltb, arith, Bool-cases, inl, inr,
}
use tl2_cpp.Queues.BoundedQueue
use tl2_cpp.Queues.BoundedQueue.{BoundedQueue}
use tl2_cpp.Queues.BoundedQueue.Sequence.{
  Holds, behind, enq_tx-Holds, deq_attempt-Holds, length-append,
}
use tl2_cpp.Queues.BatchQueue.{try_enqueue, try_dequeue, batch}

module _ {T : Type 0} where
  tail-try_enqueue :
      (x : T) (q : BoundedQueue T) → q.tail + 1 < 2 ^ 64 → (try_enqueue x q).1.tail ≤ q.tail + 1
  unfolding try_enqueue
  tail-try_enqueue x q room =
      elim (Bool-cases ((q.tail + 2 ^ 64 - q.head) % 2 ^ 64 == q._capacity)) [
        | inl e ↦ rw e (omega arith)
        | inr e ↦ rw e (omega (arith, room))
      ]

  tail-try_dequeue : (q : BoundedQueue T) → (try_dequeue q).1.tail ≡ q.tail
  unfolding try_dequeue
  tail-try_dequeue q = elim (Bool-cases (q.tail == q.head)) [
    | inl e ↦ rw e refl
    | inr e ↦ rw e refl
  ]

  dequeue-same :
      (blank : T) (flags : Bool × T) (q : BoundedQueue T)
      → (try_dequeue q).1 ≡ (BoundedQueue.deq_attempt blank flags q).1
  unfolding try_dequeue BoundedQueue.deq_attempt BoundedQueue.deq_tx
  dequeue-same blank flags q = elim (Bool-cases (q.tail == q.head)) [
    | inl e ↦ rw e refl
    | inr e ↦ rw e refl
  ]

  enqueue-same : (x : T) (q : BoundedQueue T) → (try_enqueue x q).1 ≡ (BoundedQueue.enq_tx x q).1
  unfolding try_enqueue BoundedQueue.enq_tx
  enqueue-same x q = refl

  -- One call of each.
  turn :
      (x : T) (q : BoundedQueue T) (xs : List T)
      → Holds q xs
      → length xs < q._capacity
      → q.tail + 1 < 2 ^ 64
      → Holds (try_dequeue (try_enqueue x q).1).1 (behind (xs ++ x ∷ []))
        × ((try_dequeue (try_enqueue x q).1).1._capacity ≡ q._capacity)
  turn x q xs s fits room =
      let (_, s₁, cap₁) = enq_tx-Holds x q xs s room in
      let test : ltb (length xs) q._capacity ≡ true = ground (arith, fits) in
      let s₁' : Holds (BoundedQueue.enq_tx x q).1 (xs ++ x ∷ []) =
        subst (λ b. Holds (BoundedQueue.enq_tx x q).1 (if b then xs ++ x ∷ [] else xs)) test s₁ in
      let (_, s₂, cap₂) =
        deq_attempt-Holds x (false, x) (BoundedQueue.enq_tx x q).1 (xs ++ x ∷ []) s₁' in
      rw (enqueue-same x q, dequeue-same x (false, x) (BoundedQueue.enq_tx x q).1) (s₂, cap₂ ∙ cap₁)

length-behind : {T : Type 0} (xs : List T) (x : T) → length (behind (xs ++ x ∷ [])) ≡ length xs
length-behind [] x = refl
length-behind (y ∷ xs) x = length-append xs x

-- On a queue with room, while its counters do not wrap, a batch leaves as many items as there were.
pub batch-Holds :
    (n i k : ℕ) (q : BoundedQueue ℕ) (xs : List ℕ)
    → Holds q xs
    → length xs < q._capacity
    → q.tail + n < 2 ^ 64
    → (ys : List ℕ) × Holds (batch n i k q) ys × (length ys ≡ length xs)
unfolding batch
batch-Holds zero i k q xs s fits room = (xs, s, refl)
batch-Holds (suc n) i k q xs s fits room =
    let x = i + k + 2 ^ 31 in
    let q' = (try_dequeue (try_enqueue x q).1).1 in
    let (s', cap) = turn x q xs s fits (omega (arith, room)) in
    let grown : q'.tail ≤ q.tail + 1 =
      omega
        (arith, tail-try_dequeue (try_enqueue x q).1, tail-try_enqueue x q (omega (arith, room))) in
    let (ys, done, same) =
      batch-Holds n i (suc k) q' (behind (xs ++ x ∷ [])) s'
        (omega (arith, fits, cap, length-behind xs x)) (omega (arith, room, grown)) in
    (ys, done, same ∙ length-behind xs x)
