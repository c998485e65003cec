-- ===== src/Queues/StackStm/Lifo.antt =====
-- `StackSTM` as a sequence, last in, first out.
use tl2_cpp.Common.{
  ℕ, ◌≡◌, ◌≢◌, refl, Bool, true, false, Option, none, some, List, [], ◌∷◌, ◌==◌, arith,
}
use tl2_cpp.Common.Res.{ok}
use tl2_cpp.Heap.{Heap, node, null}
use tl2_cpp.Heap.Cells.{head_of, has, Cells, Cells-update, at-live}
use tl2_cpp.Queues.StackStm.{empty, push, try_pop}

module _ {T : Type 0} where
  -- What `try_pop` returns of the items, and what it leaves.
  abbrev pub popped : List (ℕ × T) → Option T × List (ℕ × T)
  popped [] = (none, [])
  popped ((p, x) ∷ xs) = (some x, xs)

  -- Whether there are none.
  abbrev pub is_nil : List (ℕ × T) → Bool
  is_nil [] = true
  is_nil (x ∷ xs) = false

  -- On a stack of given items, `push` puts one in front, `try_pop` takes the first and answers it,
  -- or changes nothing if there is none, and `empty` tells whether there is none.
  pub stack-ops :
      (top p : ℕ) (x : T) (h : Heap T) (xs : List (ℕ × T))
      → Cells null h xs
      → top ≡ head_of null xs
      → p ≢ null
      → has p xs ≡ false
      → Cells null (push p x top h).1 ((p, x) ∷ xs)
        × ((push p x top h).0 ≡ head_of null ((p, x) ∷ xs))
        × (try_pop top h ≡ ok ((popped xs).0, head_of null (popped xs).1))
        × Cells null h (popped xs).1
        × (empty top ≡ is_nil xs)
  unfolding push try_pop empty
  stack-ops top p x h xs c e ne out = (
    (ne, out, ground (arith, e), Cells-update null h p (some (node x top)) xs c out),
    refl,
    popping xs c e,
    rest xs c,
    nil xs c e,
  )
    where
      popping :
          (xs : List (ℕ × T))
          → Cells null h xs
          → top ≡ head_of null xs
          → try_pop top h ≡ ok ((popped xs).0, head_of null (popped xs).1)
      popping [] c e = rw e refl
      popping ((q, y) ∷ ys) c e =
          rw e (rw (at-live h q y (head_of null ys) c.0 c.2) (ground (arith, c.0)))

      rest : (xs : List (ℕ × T)) → Cells null h xs → Cells null h (popped xs).1
      rest [] c = tt
      rest (y ∷ ys) c = c.3

      nil :
          (xs : List (ℕ × T)) → Cells null h xs → top ≡ head_of null xs → (top == null) ≡ is_nil xs
      nil [] c e = rw e refl
      nil (y ∷ ys) c e = ground (arith, e, c.0)
