-- ===== src/Queues/QueueBench/Rounds.antt =====
-- The rounds of a thread on the queue, alone.
use tl2_cpp.Common.{
  ℕ, zero, suc, ◌≤◌, ap, sym, none, ◌+◌, ◌%◌, ◌^◌, ◌<◌, ◌≡◌, refl, ◌∙◌, List, [], ◌∷◌, ◌++◌, ◌==◌,
  length, length-append, arith, Bool-cases, inl, inr,
}
use tl2_cpp.Common.Res.{ok, ok-injective, >>=-eq-ok}
use tl2_cpp.Heap.{Heap, null, construct, set_next}
use tl2_cpp.Heap.Cells.{has-fresh, set_next-dead}
use tl2_cpp.Queues.StmQueue.{StmQueue, enqueue}
use tl2_cpp.Queues.StmQueue.Fifo.{Holds, fifo-ops, behind}
use tl2_cpp.Queues.QueueBench.{alternate}

-- No node at `p` and behind.
abbrev pub IsUnused : ℕ → Heap ℕ → Type 0
IsUnused p h = (z : ℕ) → p ≤ z → h z ≡ none

enqueue-IsUnused :
    (p x : ℕ) (q q' : StmQueue) (h h' : Heap ℕ)
    → enqueue p x q h ≡ ok (q', h')
    → IsUnused p h
    → IsUnused (suc p) h'
unfolding enqueue
enqueue-IsUnused p x q q' h h' e free z i =
    let (g, linked, done) = >>=-eq-ok (set_next (construct h p x null) q.tail p) _ e in
    ap (λ (r : StmQueue × Heap ℕ). r.1 z) (sym (ok-injective done))
    ∙ set_next-dead (construct h p x null) g q.tail p z linked
        (ground (arith, i, free z (omega (arith, i))))

-- From a queue with an item for an odd round and none for an even one, the rounds end, and leave a
-- queue for the round after them.
pub alternate-Holds :
    (ops i p : ℕ) (q : StmQueue) (h : Heap ℕ) (blank : ℕ) (xs : List (ℕ × ℕ))
    → Holds q h blank xs
    → 0 < p
    → IsUnused p h
    → length xs ≡ i % 2
    → (q' : StmQueue) × (h' : Heap ℕ) × (dummy : ℕ) × (ys : List (ℕ × ℕ)) × (alternate ops i p q h
        ≡ ok (q', h'))
      × Holds q' h' dummy ys
      × (length ys ≡ (i + ops) % 2)
unfolding alternate
alternate-Holds zero i p q h blank xs s live low n = (q, h, blank, xs, refl, s, n ∙ omega arith)
alternate-Holds (suc ops) i p q h blank xs s live free n =
    let laws =
      fifo-ops p (i + 2 ^ 31) q h blank xs s (omega arith)
        (has-fresh null p h ((q.head, blank) ∷ xs) s.cells (free p (omega arith))) in
    elim (Bool-cases (i % 2 == 0)) [
      | inl even ↦
          let (q₁, h₁, e₁, s₁) = laws.0 in
          let (q', h', dummy, ys, e, s', n') =
            alternate-Holds ops (suc i) (suc p) q₁ h₁ blank (xs ++ (p, i + 2 ^ 31) ∷ []) s₁
              (omega arith) (enqueue-IsUnused p (i + 2 ^ 31) q q₁ h h₁ e₁ free)
              (length-append xs ((p, i + 2 ^ 31) ∷ []) ∙ ground (arith, n, even)) in
          (q', h', dummy, ys, rw (even, e₁) e, s', n' ∙ omega arith)
      | inr odd ↦
          let (q₁, dummy₁, e₁, s₁) = laws.1 in
          let (q', h', dummy, ys, e, s', n') =
            alternate-Holds ops (suc i) p q₁ h dummy₁ (behind xs) s₁ live free
              (one_less xs (ground (arith, n, odd)) ∙ ground (arith, odd)) in
          (q', h', dummy, ys, rw (odd, e₁) e, s', n' ∙ omega arith)
    ]
  where
    one_less : (xs : List (ℕ × ℕ)) → length xs ≡ 1 → length (behind xs) ≡ 0
    one_less [] e = absurd (omega arith)
    one_less (x ∷ xs) e = omega arith
