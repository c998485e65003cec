-- ===== src/Queues/StackBench/Rounds.antt =====
-- Rounds that push and rounds that pop, one after the other.
use tl2_cpp.Common.{
  ℕ, zero, suc, ◌+◌, ◌*◌, ◌<◌, ◌≤◌, ◌≡◌, refl, ap, sym, ◌∙◌, subst, none, List, ◌∷◌, arith,
}
use tl2_cpp.Common.Res.{ok}
use tl2_cpp.Heap.{Heap, null}
use tl2_cpp.Heap.Cells.{Cells, head_of, has-fresh}
use tl2_cpp.Queues.StackStm.{push, try_pop}
use tl2_cpp.Queues.StackStm.Lifo.{stack-ops, popped}
use tl2_cpp.Queues.StackBench.{pushes, pops}

-- What the rounds that pop leave of the items.
abbrev left_by : ℕ → List (ℕ × ℕ) → List (ℕ × ℕ)
left_by zero xs = xs
left_by (suc ops) xs = left_by ops (popped (popped xs).1).1

-- The items that the rounds that push put in front.
abbrev stacked : ℕ → ℕ → List (ℕ × ℕ) → List (ℕ × ℕ)
stacked zero p xs = xs
stacked (suc ops) p xs = stacked ops (suc (suc p)) ((suc p, 4) ∷ (p, 2) ∷ xs)

left_by-suc :
    (ops : ℕ) (xs : List (ℕ × ℕ)) → left_by (suc ops) xs ≡ (popped (popped (left_by ops xs)).1).1
left_by-suc zero xs = refl
left_by-suc (suc ops) xs = left_by-suc ops (popped (popped xs).1).1

left_by-stacked : (ops p : ℕ) (xs : List (ℕ × ℕ)) → left_by ops (stacked ops p xs) ≡ xs
left_by-stacked zero p xs = refl
left_by-stacked (suc ops) p xs =
    left_by-suc ops (stacked ops (suc (suc p)) ((suc p, 4) ∷ (p, 2) ∷ xs))
    ∙ ap (λ ys. (popped (popped ys).1).1)
        (left_by-stacked ops (suc (suc p)) ((suc p, 4) ∷ (p, 2) ∷ xs))

one_pop :
    (p top : ℕ) (h : Heap ℕ) (xs : List (ℕ × ℕ))
    → 0 < p
    → h p ≡ none
    → Cells null h xs
    → top ≡ head_of null xs
    → (try_pop top h ≡ ok ((popped xs).0, head_of null (popped xs).1)) × Cells null h (popped xs).1
one_pop p top h xs live free c e =
    let laws = stack-ops top p 0 h xs c e (omega (arith, live)) (has-fresh null p h xs c free) in
    (laws.2, laws.3)

pops-left_by :
    (p ops top : ℕ) (h : Heap ℕ) (xs : List (ℕ × ℕ))
    → 0 < p
    → h p ≡ none
    → Cells null h xs
    → top ≡ head_of null xs
    → (pops ops top h ≡ ok (head_of null (left_by ops xs))) × Cells null h (left_by ops xs)
unfolding pops
pops-left_by p zero top h xs live free c e = (ap ok e, c)
pops-left_by p (suc ops) top h xs live free c e =
    let (e₁, c₁) = one_pop p top h xs live free c e in
    let (e₂, c₂) = one_pop p (head_of null (popped xs).1) h (popped xs).1 live free c₁ refl in
    let rest =
      pops-left_by p ops (head_of null (popped (popped xs).1).1) h (popped (popped xs).1).1 live
        free c₂ refl in
    (rw (e₁, e₂) rest.0, rest.1)

one_push :
    (p top x : ℕ) (h : Heap ℕ) (xs : List (ℕ × ℕ))
    → 0 < p
    → ((z : ℕ) → p ≤ z → h z ≡ none)
    → Cells null h xs
    → top ≡ head_of null xs
    → Cells null (push p x top h).1 ((p, x) ∷ xs)
      × ((push p x top h).0 ≡ p)
      × ((z : ℕ) → suc p ≤ z → (push p x top h).1 z ≡ none)
unfolding push
one_push p top x h xs live free c e =
    let laws =
      stack-ops top p x h xs c e (omega (arith, live))
        (has-fresh null p h xs c (free p (omega arith))) in
    (laws.0, refl, λ z i. ground (arith, i, free z (omega (arith, i))))

pushes-stacked :
    (ops p top : ℕ) (h : Heap ℕ) (xs : List (ℕ × ℕ))
    → 0 < p
    → ((z : ℕ) → p ≤ z → h z ≡ none)
    → Cells null h xs
    → top ≡ head_of null xs
    → Cells null (pushes ops p top h).1 (stacked ops p xs)
      × ((pushes ops p top h).0 ≡ head_of null (stacked ops p xs))
      × ((z : ℕ) → 2 * ops + p ≤ z → (pushes ops p top h).1 z ≡ none)
unfolding pushes
pushes-stacked zero p top h xs live free c e = (c, e, λ z i. free z (omega (arith, i)))
pushes-stacked (suc ops) p top h xs live free c e =
    let (c₁, e₁, free₁) = one_push p top 2 h xs live free c e in
    let first = push p 2 top h in
    let (c₂, e₂, free₂) =
      one_push (suc p) first.0 4 first.1 ((p, 2) ∷ xs) (omega arith) free₁ c₁ e₁ in
    let second = push (suc p) 4 first.0 first.1 in
    let (c', e', free') =
      pushes-stacked ops (suc (suc p)) second.0 second.1 ((suc p, 4) ∷ (p, 2) ∷ xs) (omega arith)
        free₂ c₂ e₂ in
    (c', e', λ z i. free' z (omega (arith, i)))

-- On a stack of given items, with no node at `p` and behind: as many rounds that push and then that
-- pop end, and leave the stack as it was.
pub pops-pushes :
    (ops p top : ℕ) (h : Heap ℕ) (xs : List (ℕ × ℕ))
    → 0 < p
    → ((z : ℕ) → p ≤ z → h z ≡ none)
    → Cells null h xs
    → top ≡ head_of null xs
    → (pops ops (pushes ops p top h).0 (pushes ops p top h).1 ≡ ok top)
      × Cells null (pushes ops p top h).1 xs
pops-pushes ops p top h xs live free c e =
    let (c₁, e₁, free₁) = pushes-stacked ops p top h xs live free c e in
    let h₁ = (pushes ops p top h).1 in
    let (done, c') =
      pops-left_by (2 * ops + p) ops (pushes ops p top h).0 h₁ (stacked ops p xs) (omega arith)
        (free₁ (2 * ops + p) (omega arith)) c₁ e₁ in
    let back = left_by-stacked ops p xs in
    (done ∙ ap (λ ys. ok (head_of null ys)) back ∙ ap ok (sym e), subst (Cells null h₁) back c')
