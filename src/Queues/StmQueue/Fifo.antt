-- ===== src/Queues/StmQueue/Fifo.antt =====
-- `STMQueue` as a sequence, first in, first out.
use tl2_cpp.Common.{
  ℕ, ◌≡◌, ◌≢◌, refl, sym, ◌∙◌, false, Option, none, some, List, [], ◌∷◌, ◌++◌, arith, update,
}
use tl2_cpp.Common.Res.{ok}
use tl2_cpp.Heap.{Heap, node, null, construct, set_next}
use tl2_cpp.Heap.Cells.{head_of, has, Cells, Cells-update, at-live, set_next-live, has-append}
use tl2_cpp.Queues.StmQueue.{StmQueue, new, enqueue, dequeue}

module _ {T : Type 0} where
  -- The address of the last cell, behind the one at `p`.
  abbrev pub last_of : ℕ → List (ℕ × T) → ℕ
  last_of p [] = p
  last_of p ((q, x) ∷ xs) = last_of q xs

  -- The dummy, and behind it the items in order.
  pub record Holds (q : StmQueue) (h : Heap T) (blank : T) (xs : List (ℕ × T)) : Type 0 where
    pub cells : Cells null h ((q.head, blank) ∷ xs)
    pub last : q.tail ≡ last_of q.head xs

  pub new-Holds :
      (blank : T) (p : ℕ) (h : Heap T)
      → p ≢ null
      → Holds (new blank p h).0 (new blank p h).1 blank []
  new-Holds blank p h ne = record { cells = (ne, refl, ground arith, tt); last = refl }

  -- The last cell is linked to a new one.
  append :
      (h : Heap T) (p r : ℕ) (d x : T) (xs : List (ℕ × T))
      → Cells null h ((p, d) ∷ xs)
      → r ≢ null
      → has r ((p, d) ∷ xs) ≡ false
      → h r ≡ some (node x null)
      → (h' : Heap T) × (set_next h (last_of p xs) r ≡ ok h')
        × Cells null h' ((p, d) ∷ xs ++ (r, x) ∷ [])
        × ((a : ℕ) → has a ((p, d) ∷ xs) ≡ false → h' a ≡ h a)
  append h p r d x [] c ne out new_cell = (
    update h p (some (node d r)),
    set_next-live h p d null r c.0 c.2,
    (c.0, ground (arith, out), ground arith, (ne, refl, ground (arith, out, new_cell), tt)),
    λ a o. ground (arith, o),
  )
  append h p r d x ((q, y) ∷ xs) c ne out new_cell =
      let (h', done, cs, same) = append h q r y x xs c.3 ne (ground (arith, out)) new_cell in
      (
        h',
        done,
        (
          c.0,
          has-append p ((q, y) ∷ xs) ((r, x) ∷ []) ∙ ground (arith, c.1, out),
          same p c.1 ∙ c.2,
          cs,
        ),
        λ a o. same a (ground (arith, o)),
      )

  last_of-append : (p r : ℕ) (x : T) (xs : List (ℕ × T)) → last_of p (xs ++ (r, x) ∷ []) ≡ r
  last_of-append p r x [] = refl
  last_of-append p r x ((q, y) ∷ xs) = last_of-append q r x xs

  -- `enqueue` puts the item behind all others.
  enqueue-Holds :
      (p : ℕ) (x : T) (q : StmQueue) (h : Heap T) (blank : T) (xs : List (ℕ × T))
      → Holds q h blank xs
      → p ≢ null
      → has p ((q.head, blank) ∷ xs) ≡ false
      → (q' : StmQueue) × (h' : Heap T) × (enqueue p x q h ≡ ok (q', h'))
        × Holds q' h' blank (xs ++ (p, x) ∷ [])
  unfolding enqueue
  enqueue-Holds p x q h blank xs s ne out =
      let c = Cells-update null h p (some (node x null)) ((q.head, blank) ∷ xs) s.cells out in
      let (h', done, cs, _) =
        append (construct h p x null) q.head p blank x xs c ne out (ground arith) in
      (
        record q { tail = p },
        h',
        rw s.last (rw done refl),
        record { cells = cs; last = sym (last_of-append q.head p x xs) },
      )

  -- `dequeue` of an empty queue answers that there is nothing.
  dequeue-empty :
      (q : StmQueue) (h : Heap T) (blank : T) → Holds q h blank [] → dequeue q h ≡ ok (none, q)
  unfolding dequeue
  dequeue-empty q h blank s = rw (at-live h q.head blank null s.cells.0 s.cells.2) refl

  -- `dequeue` of another takes the first item, whose node becomes the dummy.
  dequeue-Holds :
      (q : StmQueue) (h : Heap T) (blank : T) (p : ℕ) (x : T) (xs : List (ℕ × T))
      → Holds q h blank ((p, x) ∷ xs)
      → (q' : StmQueue) × (dequeue q h ≡ ok (some x, q')) × Holds q' h x xs
  unfolding dequeue
  dequeue-Holds q h blank p x xs s = (
    record q { head = p },
    rw (at-live h q.head blank p s.cells.0 s.cells.2) (
        rw (at-live h p x (head_of null xs) s.cells.3.0 s.cells.3.2) (ground (arith, s.cells.3.0))),
    record { cells = s.cells.3; last = s.last },
  )

  -- What `dequeue` answers of the items, and what it leaves of them.
  abbrev pub first_of : List (ℕ × T) → Option T
  first_of [] = none
  first_of ((p, x) ∷ xs) = some x

  abbrev pub behind : List (ℕ × T) → List (ℕ × T)
  behind [] = []
  behind (x ∷ xs) = xs

  -- On a queue of given items, with a fresh node, `enqueue` puts the item behind all others;
  -- `dequeue` takes the first item and answers it, or nothing if there is none.
  pub fifo-ops :
      (p : ℕ) (x : T) (q : StmQueue) (h : Heap T) (blank : T) (xs : List (ℕ × T))
      → Holds q h blank xs
      → p ≢ null
      → has p ((q.head, blank) ∷ xs) ≡ false
      → ((q' : StmQueue) × (h' : Heap T) × (enqueue p x q h ≡ ok (q', h'))
          × Holds q' h' blank (xs ++ (p, x) ∷ []))
        × ((q' : StmQueue) × (dummy : T) × (dequeue q h ≡ ok (first_of xs, q'))
            × Holds q' h dummy (behind xs))
  fifo-ops p x q h blank [] s ne out =
      (enqueue-Holds p x q h blank [] s ne out, (q, blank, dequeue-empty q h blank s, s))
  fifo-ops p x q h blank ((r, y) ∷ xs) s ne out =
      let (q', done, s') = dequeue-Holds q h blank r y xs s in
      (enqueue-Holds p x q h blank ((r, y) ∷ xs) s ne out, (q', y, done, s'))
