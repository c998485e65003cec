-- ===== src/Queues/BoundedQueue/Sequence.antt =====
-- `BoundedQueue` as a bounded sequence.
use tl2_cpp.Common.{
  ℕ, suc, ◌+◌, ◌-◌, ◌%◌, ◌^◌, ◌≤◌, ◌<◌, ◌≡◌, refl, ap, subst, ◌∙◌, Bool, true, false, List, [], ◌∷◌,
  ◌++◌, ◌==◌, if◌then◌else◌, update, length, arith, ltb, Bool-cases, inl, inr, ltb→lt,
}
use tl2_cpp.Queues.BoundedQueue.{
  BoundedQueue, try_enq, size, enq_tx, deq_tx, deq_attempt, aborted, try_deq,
}
use tl2_cpp.Queues.BoundedQueue.Ring.{slot, differ}

module _ {T : Type 0} where
  -- The slots from position `i` on have the items.
  abbrev pub Slots : ℕ → ℕ → (ℕ → T) → List T → Type 0
  Slots c i items [] = Unit
  Slots c i items (x ∷ xs) = (items (i % c) ≡ x) × Slots c (suc i) items xs

  -- The queue has the items `xs`, first to last, and its counters have not wrapped.
  pub record Holds (q : BoundedQueue T) (xs : List T) : Type 0 where
    pub slots : Slots q._capacity q.head q.items xs
    pub span : q.tail ≡ q.head + length xs
    pub fits : length xs ≤ q._capacity
    pub bound : q.tail < 2 ^ 64

  Slots-append :
      (c i : ℕ) (items : ℕ → T) (x : T) (xs : List T) (t : ℕ)
      → Slots c i items xs
      → t ≡ i + length xs
      → length xs < c
      → Slots c i (update items (t % c) x) (xs ++ x ∷ [])
  Slots-append c i items x [] t s e room = (rw (slot t i c (omega (arith, e))) refl, tt)
  Slots-append c i items x (y ∷ ys) t s e room = (
    rw (differ t i (suc (length ys)) c e (omega arith) room) s.0,
    Slots-append c (suc i) items x ys t s.1 (omega (arith, e)) (omega (arith, room)),
  )

  pub length-append : (xs : List T) (x : T) → length (xs ++ x ∷ []) ≡ suc (length xs)
  length-append [] x = refl
  length-append (y ∷ ys) x = ap suc (length-append ys x)

  -- What the code computes as the number of items.
  count :
      (q : BoundedQueue T) (xs : List T)
      → Holds q xs
      → (q.tail + 2 ^ 64 - q.head) % 2 ^ 64 ≡ length xs
  count q xs s = omega (arith, s.span, s.bound)

  -- The bodies of `try_enq` and `enq_tx` put the item behind the others if there is room, and else
  -- change nothing.
  pub enq_tx-Holds :
      (x : T) (q : BoundedQueue T) (xs : List T)
      → Holds q xs
      → q.tail + 1 < 2 ^ 64
      → ((enq_tx x q).0 ≡ ltb (length xs) q._capacity)
        × Holds (enq_tx x q).1 (if ltb (length xs) q._capacity then xs ++ x ∷ [] else xs)
        × ((enq_tx x q).1._capacity ≡ q._capacity)
  unfolding enq_tx
  enq_tx-Holds x q xs s room = elim (Bool-cases (ltb (length xs) q._capacity)) [
    | inl l ↦
        let test : ((q.tail + 2 ^ 64 - q.head) % 2 ^ 64 == q._capacity) ≡ false =
          ap (λ n. n == q._capacity) (count q xs s) ∙ ground (arith, l) in
        rw (l, test)
          (
            refl,
            record {
              slots =
                  Slots-append q._capacity q.head q.items x xs q.tail s.slots s.span
                    (ground (arith, l));
              span = omega (arith, s.span, s.bound, room, length-append xs x);
              fits = omega (arith, length-append xs x, ltb→lt (length xs) q._capacity l);
              bound = omega (arith, room);
            },
            refl,
          )
    | inr g ↦
        let test : ((q.tail + 2 ^ 64 - q.head) % 2 ^ 64 == q._capacity) ≡ true =
          ap (λ n. n == q._capacity) (count q xs s) ∙ ground (arith, g, s.fits) in
        rw (g, test) (refl, s, refl)
  ]

  -- What a dequeue answers of the items: true and the first, or what it began with.
  abbrev pub taken : Bool × T → List T → Bool × T
  taken flags [] = flags
  taken flags (x ∷ xs) = (true, x)

  -- The answer that the last of the queues which is not empty gives: true and its first item.
  abbrev pub last_seen : Bool × T → List (BoundedQueue T) → Bool × T
  last_seen flags [] = flags
  last_seen flags (q ∷ qs) =
      let here : Bool × T = (true, q.items (q.head % q._capacity)) in
      last_seen (if q.tail == q.head then flags else here) qs

  abbrev pub behind : List T → List T
  behind [] = []
  behind (x ∷ xs) = xs

  -- An attempt takes the first item, or changes nothing if there is none.
  pub deq_attempt-Holds :
      (blank : T) (flags : Bool × T) (q : BoundedQueue T) (xs : List T)
      → Holds q xs
      → ((deq_attempt blank flags q).0 ≡ taken flags xs)
        × Holds (deq_attempt blank flags q).1 (behind xs)
        × ((deq_attempt blank flags q).1._capacity ≡ q._capacity)
  unfolding deq_attempt deq_tx
  deq_attempt-Holds blank flags q [] s =
      let test : (q.tail == q.head) ≡ true = ground (arith, s.span) in rw test (refl, s, refl)
  deq_attempt-Holds blank flags q (x ∷ xs) s =
      let test : (q.tail == q.head) ≡ false = ground (arith, s.span) in
      rw test (
        ap (λ y. (true, y)) s.slots.0,
        record {
          slots =
              subst (λ i. Slots q._capacity i q.items xs) (omega (arith, s.span, s.bound))
                s.slots.1;
          span = omega (arith, s.span, s.bound);
          fits = omega (arith, s.fits);
          bound = s.bound;
        },
        refl,
      )

  aborted-last_seen :
      (blank : T) (flags : Bool × T) (qs : List (BoundedQueue T))
      → aborted blank flags qs ≡ last_seen flags qs
  unfolding aborted deq_attempt deq_tx
  aborted-last_seen blank flags [] = refl
  aborted-last_seen blank flags (q ∷ qs) = elim (Bool-cases (q.tail == q.head)) [
    | inl e ↦ rw e (aborted-last_seen blank flags qs)
    | inr e ↦ rw e (aborted-last_seen blank (true, q.items (q.head % q._capacity)) qs)
  ]

  try_deq-Holds :
      (blank out : T) (qs : List (BoundedQueue T)) (q : BoundedQueue T) (xs : List T)
      → Holds q xs
      → ((try_deq blank out qs q).0 ≡ taken (last_seen (false, out) qs) xs)
        × Holds (try_deq blank out qs q).1 (behind xs)
        × ((try_deq blank out qs q).1._capacity ≡ q._capacity)
  unfolding try_deq
  try_deq-Holds blank out qs q xs s =
      rw (aborted-last_seen blank (false, out) qs)
        (deq_attempt-Holds blank (last_seen (false, out) qs) q xs s)

  -- `size` is the number of items.
  size-length : (q : BoundedQueue T) (xs : List T) → Holds q xs → size q ≡ length xs
  unfolding size
  size-length q xs s = count q xs s

  -- While the counters are below 2 ^ 64: `try_enq` puts the item behind the others and answers true
  -- if there is room, and else changes nothing. `try_deq` takes the first item, stores it to `out`
  -- and answers true. If there is none at the attempt that commits, it leaves the queue as it was;
  -- then it answers false and leaves `out`, unless an attempt that was aborted had seen a queue that
  -- is not empty: after that it answers true, and `out` has the first item of the last such queue.
  -- `size` is the number of items.
  pub bounded-ops :
      (x blank out : T) (qs : List (BoundedQueue T)) (q : BoundedQueue T) (xs : List T)
      → Holds q xs
      → q.tail + 1 < 2 ^ 64
      → (((try_enq x q).0 ≡ ltb (length xs) q._capacity)
          × Holds (try_enq x q).1 (if ltb (length xs) q._capacity then xs ++ x ∷ [] else xs)
          × ((try_enq x q).1._capacity ≡ q._capacity))
        × (((try_deq blank out qs q).0 ≡ taken (last_seen (false, out) qs) xs)
            × Holds (try_deq blank out qs q).1 (behind xs)
            × ((try_deq blank out qs q).1._capacity ≡ q._capacity))
        × (size q ≡ length xs)
  unfolding try_enq
  bounded-ops x blank out qs q xs s room =
      (enq_tx-Holds x q xs s room, try_deq-Holds blank out qs q xs s, size-length q xs s)
