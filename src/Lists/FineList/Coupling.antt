-- ===== src/Lists/FineList/Coupling.antt =====
-- The loop of `FineList` holds the mutexes of the two nodes that it looks at, and of no other.
use tl2_cpp.Common.{
  ℕ, zero, suc, ◌≡◌, refl, sym, ap, ◌∙◌, Bool, true, false, ◌||◌, none, some, List, [], ◌∷◌, ◌==◌,
  ltb, arith, update, Bool-cases, inl, inr, if◌then◌else◌, fun_ext, subst,
}
use tl2_cpp.Common.Res.{Res, ok, ok-injective, >>=-eq-ok, ◌>>=◌}
use tl2_cpp.Heap.{Heap, Node, node, at, construct, set_next}
use tl2_cpp.Heap.Cells.{head_of, Cells, at-live}
use tl2_cpp.Lists.Sorted.{Entry, entry, scan, locate, link, unlink}
use tl2_cpp.Lists.Sorted.Split.{reaches}
use tl2_cpp.Lists.FineList.{Mutexes, lock, unlock, walk, enter, leave}

-- The mutexes of two nodes are held, and no others.
abbrev pub both : ℕ → ℕ → Mutexes
both p q a = (a == p) || (a == q)

abbrev pub no_one : Mutexes
no_one a = false

-- One step: the mutex behind is given back before the one ahead is taken.
step_both :
    (p q r : ℕ)
    → (p == q) ≡ false
    → (r == q) ≡ false
    → update (update (both p q) p false) r true ≡ both q r
step_both p q r a b = fun_ext λ x. ground arith

module _ {T : Type 0} where
  lock-free :
      (h : Heap (Entry T)) (p : ℕ) (held : Mutexes) {n : Node (Entry T)}
      → at h p ≡ ok n
      → held p ≡ false
      → lock h p held ≡ ok (update held p true)
  unfolding lock
  lock-free h p held e free = rw (e, free)

  unlock-live :
      (h : Heap (Entry T)) (p : ℕ) (held : Mutexes) {n : Node (Entry T)}
      → at h p ≡ ok n
      → unlock h p held ≡ ok (update held p false)
  unfolding unlock
  unlock-live h p held e = rw e

  stops :
      (fuel : ℕ) (h : Heap (Entry T)) (k p q : ℕ) (d : Entry T) (r : ℕ)
      → at h q ≡ ok (node d r)
      → ltb d.key k ≡ false
      → scan (suc fuel) h k p q ≡ ok (p, q)
  unfolding scan
  stops fuel h k p q d r here high =
      rw here (ap (λ b. if b then scan fuel h k q r else ok (p, q)) high)

  goes :
      (fuel : ℕ) (h : Heap (Entry T)) (k p q : ℕ) (d : Entry T) (r : ℕ)
      → at h q ≡ ok (node d r)
      → ltb d.key k ≡ true
      → scan (suc fuel) h k p q ≡ scan fuel h k q r
  unfolding scan
  goes fuel h k p q d r here low =
      rw here (ap (λ b. if b then scan fuel h k q r else ok (p, q)) low)

  walk-stops :
      (fuel : ℕ) (h : Heap (Entry T)) (k p q : ℕ) (d : Entry T) (r : ℕ) (held : Mutexes)
      → at h q ≡ ok (node d r)
      → ltb d.key k ≡ false
      → walk (suc fuel) h k p q held ≡ ok (p, q, held)
  unfolding walk
  walk-stops fuel h k p q d r held here high = rw here (
      ap
        (λ b.
          if b
          then (do held₁ ← unlock h p held; held₂ ← lock h r held₁; walk fuel h k q r held₂)
          else ok (p, q, held))
        high)

  walk-goes :
      (fuel : ℕ) (h : Heap (Entry T)) (k p q : ℕ) (d : Entry T) (r : ℕ) (held : Mutexes)
      → at h q ≡ ok (node d r)
      → ltb d.key k ≡ true
      → {held₁ held₂ : Mutexes} → unlock h p held ≡ ok held₁
      → lock h r held₁ ≡ ok held₂
      → walk (suc fuel) h k p q held ≡ walk fuel h k q r held₂
  unfolding walk
  walk-goes fuel h k p q d r held here low e₁ e₂ = rw here (
      ap
        (λ b.
          if b
          then (do held₁ ← unlock h p held; held₂ ← lock h r held₁; walk fuel h k q r held₂)
          else ok (p, q, held))
        low
      ∙ rw e₁ (rw e₂ refl))

  -- The loop stops where `scan` does.
  pub walk-scan :
      (fuel stop k p : ℕ) (e : Entry T) (h : Heap (Entry T)) (ys : List (ℕ × Entry T))
      → Cells stop h ((p, e) ∷ ys)
      → reaches k ys ≡ true
      → {pred curr : ℕ} → scan fuel h k p (head_of stop ys) ≡ ok (pred, curr)
      → walk fuel h k p (head_of stop ys) (both p (head_of stop ys))
        ≡ ok (pred, curr, both pred curr)
  unfolding scan walk
  walk-scan fuel stop k p e h [] c r done = cc
  walk-scan zero stop k p e h ((q, d) ∷ ys) c r done = cc
  walk-scan (suc fuel) stop k p e h ((q, d) ∷ []) c r {pred} {curr} done =
      let high : ltb d.key k ≡ false = ground (arith, r) in
      let here = at-live h q d stop c.3.0 c.3.2 in
      walk-stops fuel h k p q d stop (both p q) here high
      ∙ ap (λ (x : ℕ × ℕ). ok (x.0, x.1, both x.0 x.1))
          (ok-injective (sym (stops fuel h k p q d stop here high) ∙ done))
  walk-scan (suc fuel) stop k p e h ((q, d) ∷ (r, f) ∷ ys) c reach {pred} {curr} done =
      let here = at-live h q d r c.3.0 c.3.2 in
      elim (Bool-cases (ltb d.key k)) [
        | inr high ↦
            walk-stops fuel h k p q d r (both p q) here high
            ∙ ap (λ (x : ℕ × ℕ). ok (x.0, x.1, both x.0 x.1))
                (ok-injective (sym (stops fuel h k p q d r here high) ∙ done))
        | inl low ↦
            let ahead = at-live h r f (head_of stop ys) c.3.3.0 c.3.3.2 in
            walk-goes fuel h k p q d r (both p q) here low
              (unlock-live h p (both p q) (at-live h p e q c.0 c.2))
              (lock-free h r (update (both p q) p false) ahead (ground (arith, c.1, c.3.1)))
            ∙ ap (walk fuel h k q r) (step_both p q r (ground (arith, c.1)) (ground (arith, c.3.1)))
            ∙ walk-scan fuel stop k q d h ((r, f) ∷ ys) c.3 (ground (arith, reach, low))
                (sym (goes fuel h k p q d r here low) ∙ done)
      ]

enter_both : (p q : ℕ) → update (update no_one p true) q true ≡ both p q
enter_both p q = fun_ext λ x. ground arith

leave_both : (p q : ℕ) → update (update (both p q) q false) p false ≡ no_one
leave_both p q = fun_ext λ x. ground arith

module _ {T : Type 0} where
  pub enter-walk :
      (fuel stop k p q : ℕ) (e d : Entry T) (h : Heap (Entry T)) (ys : List (ℕ × Entry T))
      → Cells stop h ((p, e) ∷ (q, d) ∷ ys)
      → enter fuel h k p no_one ≡ walk fuel h k p q (both p q)
  unfolding enter
  enter-walk fuel stop k p q e d h ys c =
      let here = at-live h p e q c.0 c.2 in
      let ahead = at-live h q d (head_of stop ys) c.3.0 c.3.2 in
      rw (lock-free h p no_one here refl) (
        rw here (
          rw (lock-free h q (update no_one p true) ahead (ground (arith, c.1)))
            (ap (walk fuel h k p q) (enter_both p q))))

  -- A node that is not deleted.
  abbrev pub Live : Heap (Entry T) → ℕ → Type 0
  Live h p = (n : Node (Entry T)) × (at h p ≡ ok n)

  pub leave-Live :
      (h : Heap (Entry T)) (p q : ℕ) → Live h p → Live h q → leave h p q (both p q) ≡ ok no_one
  unfolding leave
  leave-Live h p q (n, e) (o, f) =
      rw (unlock-live h q (both p q) f)
        (unlock-live h p (update (both p q) q false) e ∙ ap ok (leave_both p q))

  Live-update :
      (h : Heap (Entry T)) (p : ℕ) (n : Node (Entry T)) (q : ℕ)
      → Live h q
      → Live (update h p (some n)) q
  unfolding at
  Live-update h p n q (o, e) = elim (Bool-cases (p == q)) [
    | inl same ↦ (n, ground (arith, e, same))
    | inr other ↦ (o, ground (arith, e, other))
  ]

  Live-set_next :
      (h : Heap (Entry T)) (p r : ℕ) {h' : Heap (Entry T)} (q : ℕ)
      → set_next h p r ≡ ok h'
      → Live h q
      → Live h' q
  unfolding set_next
  Live-set_next h p r q done l =
      let (n, e, same) = >>=-eq-ok (at h p) _ done in
      subst (λ g. Live g q) (ok-injective same) (Live-update h p (record n { next = r }) q l)

  -- Neither a link nor an unlink deletes a node.
  pub Live-link :
      (p : ℕ) (x : T) (key : ℕ) (h : Heap (Entry T)) (pred curr : ℕ) {b : Bool}
      {h' : Heap (Entry T)} (q : ℕ)
      → link p x key h pred curr ≡ ok (b, h')
      → Live h q
      → Live h' q
  unfolding link
  Live-link p x key h pred curr {b} {h'} q done l =
      let (n, e, same) = >>=-eq-ok (at h curr) _ done in
      let g = construct h p (entry (some x) key) curr in
      let new : Res (Bool × Heap (Entry T)) = (do h'' ← set_next g pred p; ok (true, h'')) in
      elim (Bool-cases (n.data_of.key == key)) [
        | inl hit ↦
            let kept = sym (ap (λ c. if c then ok (false, h) else new) hit) ∙ same in
            subst (λ g'. Live g' q) (ap (λ (y : Bool × Heap (Entry T)). y.1) (ok-injective kept)) l
        | inr miss ↦
            let (g', e', same') =
              >>=-eq-ok (set_next g pred p) _
                (sym (ap (λ c. if c then ok (false, h) else new) miss) ∙ same) in
            subst (λ g''. Live g'' q) (ap (λ (y : Bool × Heap (Entry T)). y.1) (ok-injective same'))
              (Live-set_next g pred p q e' (Live-update h p (node (entry (some x) key) curr) q l))
      ]

  pub Live-unlink :
      (key : ℕ) (h : Heap (Entry T)) (pred curr : ℕ) {b : Bool} {h' : Heap (Entry T)} (q : ℕ)
      → unlink key h pred curr ≡ ok (b, h')
      → Live h q
      → Live h' q
  unfolding unlink
  Live-unlink key h pred curr {b} {h'} q done l =
      let (n, e, same) = >>=-eq-ok (at h curr) _ done in
      let new : Res (Bool × Heap (Entry T)) = (do h'' ← set_next h pred n.next; ok (true, h'')) in
      elim (Bool-cases (n.data_of.key == key)) [
        | inr miss ↦
            let kept = sym (ap (λ c. if c then new else ok (false, h)) miss) ∙ same in
            subst (λ g'. Live g' q) (ap (λ (y : Bool × Heap (Entry T)). y.1) (ok-injective kept)) l
        | inl hit ↦
            let (g', e', same') =
              >>=-eq-ok (set_next h pred n.next) _
                (sym (ap (λ c. if c then new else ok (false, h)) hit) ∙ same) in
            subst (λ g''. Live g'' q) (ap (λ (y : Bool × Heap (Entry T)). y.1) (ok-injective same'))
              (Live-set_next h pred n.next q e' l)
      ]

  -- The walk with mutexes finds what `locate` finds, and holds those two nodes.
  pub enter-locate :
      (fuel stop k p : ℕ) (e : Entry T) (h : Heap (Entry T)) (ys : List (ℕ × Entry T))
      → Cells stop h ((p, e) ∷ ys)
      → reaches k ys ≡ true
      → {pred curr : ℕ} → locate fuel h p k ≡ ok (pred, curr)
      → enter fuel h k p no_one ≡ ok (pred, curr, both pred curr)
  unfolding locate
  enter-locate fuel stop k p e h [] c r done = cc
  enter-locate fuel stop k p e h ((q, d) ∷ ys) c r {pred} {curr} done =
      let found : scan fuel h k p q ≡ locate fuel h p k = rw (at-live h p e q c.0 c.2) refl in
      enter-walk fuel stop k p q e d h ys c
      ∙ walk-scan fuel stop k p e h ((q, d) ∷ ys) c r (found ∙ done)

  Live-apart : (h : Heap (Entry T)) (p a : ℕ) → h p ≡ none → Live h a → (p == a) ≡ false
  unfolding at
  Live-apart h p a free (n, e) = elim (Bool-cases (p == a)) [
    | inr other ↦ other
    | inl same ↦ absurd (ground (arith, e, free, same))
  ]

  -- The mutex of a new node is free already.
  pub new-both :
      (h : Heap (Entry T)) (p a b : ℕ)
      → h p ≡ none
      → Live h a
      → Live h b
      → (c : Bool) → (if c then update (both a b) p false else both a b) ≡ both a b
  new-both h p a b free la lb false = refl
  new-both h p a b free la lb true =
      let x = Live-apart h p a free la in
      let y = Live-apart h p b free lb in fun_ext λ q. ground (arith, x, y)
