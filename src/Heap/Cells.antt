-- ===== src/Heap/Cells.antt =====
-- The nodes that a linked structure consists of, in order.
use tl2_cpp.Common.{
  ℕ, ◌≡◌, ◌≢◌, refl, ap, ◌∙◌, Bool, true, false, ◌||◌, Option, none, some, List, [], ◌∷◌, ◌++◌,
  ◌==◌, arith, update, Bool-cases, Option-cases, inl, inr, eq_of_==, sym,
}
use tl2_cpp.Common.Res.{ok, ok-injective, >>=-eq-ok}
use tl2_cpp.Heap.{Node, node, Heap, null, at, set_next, set_data, delete}

module _ {D : Type 0} where
  -- The address of the first cell, or what stands behind the last.
  abbrev pub head_of : ℕ → List (ℕ × D) → ℕ
  head_of stop [] = stop
  head_of stop ((p, d) ∷ xs) = p

  -- Whether a cell has the address.
  abbrev pub has : ℕ → List (ℕ × D) → Bool
  has a [] = false
  has a ((p, d) ∷ xs) = (a == p) || has a xs

  -- The heap holds the cells at distinct addresses, each linked to the next.
  abbrev pub Cells : ℕ → Heap D → List (ℕ × D) → Type 0
  Cells stop h [] = Unit
  Cells stop h ((p, d) ∷ xs) =
      (p ≢ null) × (has p xs ≡ false) × (h p ≡ some (node d (head_of stop xs))) × Cells stop h xs

  -- Cells stay where nothing is written.
  pub Cells-frame :
      (stop : ℕ) (h g : Heap D) (xs : List (ℕ × D))
      → Cells stop h xs
      → ((a : ℕ) → has a xs ≡ true → g a ≡ h a)
      → Cells stop g xs
  Cells-frame stop h g [] c same = tt
  Cells-frame stop h g ((p, d) ∷ xs) c same = (
    c.0,
    c.1,
    same p (ground arith) ∙ c.2,
    Cells-frame stop h g xs c.3 (λ a i. same a (ground (arith, i))),
  )

  pub Cells-update :
      (stop : ℕ) (h : Heap D) (p : ℕ) (c : Option (Node D)) (xs : List (ℕ × D))
      → Cells stop h xs
      → has p xs ≡ false
      → Cells stop (update h p c) xs
  Cells-update stop h p c xs cs out =
      Cells-frame stop h (update h p c) xs cs (λ a i. ground (arith, i, out))

  -- An address where nothing lives is not one of theirs.
  pub has-fresh :
      (stop p : ℕ) (h : Heap D) (xs : List (ℕ × D))
      → Cells stop h xs
      → h p ≡ none
      → has p xs ≡ false
  has-fresh stop p h [] c free = refl
  has-fresh stop p h ((q, d) ∷ xs) c free = ground (arith, has-fresh stop p h xs c.3 free, c.2)

  pub at-live :
      (h : Heap D) (p : ℕ) (d : D) (q : ℕ)
      → p ≢ null
      → h p ≡ some (node d q)
      → at h p ≡ ok (node d q)
  unfolding at
  at-live h p d q ne e = rw e (ground arith)

  pub set_next-live :
      (h : Heap D) (p : ℕ) (d : D) (q r : ℕ)
      → p ≢ null
      → h p ≡ some (node d q)
      → set_next h p r ≡ ok (update h p (some (node d r)))
  unfolding set_next
  set_next-live h p d q r ne e = rw (at-live h p d q ne e) refl

  at-some : (h : Heap D) (p : ℕ) (n : Node D) → at h p ≡ ok n → h p ≡ some n
  unfolding at
  at-some h p n e = elim (Bool-cases (p == null)) [
    | inl is_null ↦ ground (arith, e, is_null)
    | inr is_live ↦ elim (Option-cases (h p)) [
      | inl dead ↦ ground (arith, e, is_live, dead)
      | inr (n', full) ↦ ground (arith, e, is_live, full)
    ]
  ]

  pub set_next-dead :
      (h h' : Heap D) (p q z : ℕ) → set_next h p q ≡ ok h' → h z ≡ none → h' z ≡ none
  unfolding set_next
  set_next-dead h h' p q z e dead =
      let (n, got, done) =
        >>=-eq-ok (at h p) (λ n. ok (update h p (some (record n { next = q })))) e in
      let there : h p ≡ some n = at-some h p n got in
      let other : (p == z) ≡ false = elim (Bool-cases (p == z)) [
        | inl same ↦ let gone : h p ≡ none = ap h (eq_of_== p z same) ∙ dead in cc
        | inr o ↦ o
      ] in
      ap (λ g. g z) (sym (ok-injective done)) ∙ rw other dead

  pub set_data-live :
      (h : Heap D) (p : ℕ) (d e : D) (q : ℕ)
      → p ≢ null
      → h p ≡ some (node d q)
      → set_data h p e ≡ ok (update h p (some (node e q)))
  unfolding set_data
  set_data-live h p d e q ne eq = rw (at-live h p d q ne eq) refl

  pub delete-live :
      (h : Heap D) (p : ℕ) (d : D) (q : ℕ)
      → p ≢ null
      → h p ≡ some (node d q)
      → delete h p ≡ ok (update h p none)
  unfolding delete
  delete-live h p d q ne e = rw (at-live h p d q ne e) (ground arith)

  pub has-append : (a : ℕ) (xs ys : List (ℕ × D)) → has a (xs ++ ys) ≡ (has a xs || has a ys)
  has-append a [] ys = refl
  has-append a ((p, d) ∷ xs) ys = ground (arith, has-append a xs ys)

  pub head_of-append :
      (stop : ℕ) (ls : List (ℕ × D)) (p : ℕ) (d : D) (bs cs : List (ℕ × D))
      → head_of stop (ls ++ (p, d) ∷ bs) ≡ head_of stop (ls ++ (p, d) ∷ cs)
  head_of-append stop [] p d bs cs = refl
  head_of-append stop (x ∷ ls) p d bs cs = refl

  has-relink :
      (q : ℕ) (ls : List (ℕ × D)) (p : ℕ) (d : D) (bs cs : List (ℕ × D))
      → has q (ls ++ (p, d) ∷ bs) ≡ false
      → has q cs ≡ false
      → has q (ls ++ (p, d) ∷ cs) ≡ false
  has-relink q [] p d bs cs h k = ground (arith, h, k)
  has-relink q ((r, e) ∷ ls) p d bs cs h k = ground (arith, has-relink q ls p d bs cs)

  -- The cells behind the cell at `p` are exchanged for others, and `p` is linked to them.
  pub relink :
      (stop : ℕ) (h g : Heap D) (ls : List (ℕ × D)) (p : ℕ) (d : D) (bs cs : List (ℕ × D))
      → Cells stop h (ls ++ (p, d) ∷ bs)
      → ((a : ℕ) → has a ls ≡ true → g a ≡ h a)
      → g p ≡ some (node d (head_of stop cs))
      → Cells stop g cs
      → ((a : ℕ) → has a (ls ++ (p, d) ∷ []) ≡ true → has a cs ≡ false)
      → Cells stop g (ls ++ (p, d) ∷ cs)
  relink stop h g [] p d bs cs c same link rest apart = (c.0, apart p (ground arith), link, rest)
  relink stop h g ((q, e) ∷ ls) p d bs cs c same link rest apart = (
    c.0,
    has-relink q ls p d bs cs c.1 (apart q (ground arith)),
    same q (ground arith) ∙ c.2 ∙ ap (λ r. some (node e r)) (head_of-append stop ls p d bs cs),
    relink stop h g ls p d bs cs c.3 (λ a i. same a (ground (arith, i))) link rest
        (λ a i. apart a (ground (arith, i))),
  )

  -- The cells from one of them on.
  pub middle :
      (stop : ℕ) (h : Heap D) (ls bs : List (ℕ × D)) → Cells stop h (ls ++ bs) → Cells stop h bs
  middle stop h [] bs c = c
  middle stop h ((q, e) ∷ ls) bs c = middle stop h ls bs c.3

  -- Cells before and behind one place have different addresses.
  pub apart :
      (stop a : ℕ) (h : Heap D) (ls bs : List (ℕ × D))
      → Cells stop h (ls ++ bs)
      → has a bs ≡ true
      → has a ls ≡ false
  apart stop a h [] bs c i = refl
  apart stop a h ((q, e) ∷ ls) bs c i =
      ground (arith, apart stop a h ls bs c.3 i, has-append q ls bs, c.1, i)
