-- ===== src/Heap/Relink.antt =====
-- Cells taken out of a linked structure.
use tl2_cpp.Common.{
  ℕ, ◌≡◌, ◌≢◌, ap, ◌∙◌, true, false, some, List, [], ◌∷◌, ◌++◌, ◌==◌, arith, update, Bool-cases,
  inl, inr, eq_of_==,
}
use tl2_cpp.Heap.{Heap, node, null}
use tl2_cpp.Heap.Cells.{head_of, has, Cells, Cells-update, has-append, relink, middle, apart}

module _ {D : Type 0} (stop : ℕ) (h : Heap D) (ls : List (ℕ × D)) (p : ℕ) (d : D)
    (bs : List (ℕ × D)) (c : Cells stop h (ls ++ (p, d) ∷ bs)) where
  pub before-front : has p ls ≡ false
  before-front = apart stop p h ls ((p, d) ∷ bs) c (ground arith)

  -- What is behind a cell has no address of what is before it.
  pub behind-front : (a : ℕ) → has a (ls ++ (p, d) ∷ []) ≡ true → has a bs ≡ false
  behind-front a i = elim (Bool-cases (has a bs)) [
    | inr out ↦ out
    | inl here ↦
        let rest = middle stop h ls ((p, d) ∷ bs) c in
        let front = apart stop a h ls ((p, d) ∷ bs) c (ground (arith, here)) in
        let same : (a == p) ≡ true = ground (arith, i, front, has-append a ls ((p, d) ∷ [])) in
        ap (λ b. has b bs) (eq_of_== a p same) ∙ rest.1
  ]

module _ {D : Type 0} (stop : ℕ) (h : Heap D) (ls : List (ℕ × D)) (p q : ℕ) (d e : D)
    (bs : List (ℕ × D)) (c : Cells stop h (ls ++ (p, d) ∷ (q, e) ∷ bs)) where
  -- The cell at `p` is linked past the cell at `q`.
  pub unlink-Cells : Cells stop (update h p (some (node d (head_of stop bs)))) (ls ++ (p, d) ∷ bs)
  unlink-Cells =
      let rest = middle stop h ls ((p, d) ∷ (q, e) ∷ bs) c in
      let link = some (node d (head_of stop bs)) in
      let first = before-front stop h ls p d ((q, e) ∷ bs) c in
      relink stop h (update h p link) ls p d ((q, e) ∷ bs) bs c (λ a i. ground (arith, i, first))
        (ground arith) (Cells-update stop h p link bs rest.3.3 (ground (arith, rest.1)))
        (λ a i. ground (arith, behind-front stop h ls p d ((q, e) ∷ bs) c a i))

  pub unlink-has : has q (ls ++ (p, d) ∷ bs) ≡ false
  unlink-has =
      let rest = middle stop h ls ((p, d) ∷ (q, e) ∷ bs) c in
      let front = apart stop q h ls ((p, d) ∷ (q, e) ∷ bs) c (ground arith) in
      has-append q ls ((p, d) ∷ bs) ∙ ground (arith, front, rest.1, rest.3.1)

module _ {D : Type 0} where
  pub has-differs :
      (a r : ℕ) (xs : List (ℕ × D)) → has a xs ≡ true → has r xs ≡ false → (a == r) ≡ false
  has-differs a r xs i o = elim (Bool-cases (a == r)) [
    | inl e ↦ absurd (ground (arith, i, ap (λ c. has c xs) (eq_of_== a r e) ∙ o))
    | inr n ↦ n
  ]

module _ {D : Type 0} (stop : ℕ) (h : Heap D) (ls : List (ℕ × D)) (p r : ℕ) (d e : D)
    (bs : List (ℕ × D)) (c : Cells stop h (ls ++ (p, d) ∷ bs)) (ne : r ≢ null)
    (out : has r (ls ++ (p, d) ∷ bs) ≡ false) where
  -- A new cell at `r` is linked behind the cell at `p`.
  pub insert-Cells :
      Cells stop
        (update (update h r (some (node e (head_of stop bs)))) p (some (node d r)))
        (ls ++ (p, d) ∷ (r, e) ∷ bs)
  insert-Cells =
      let rest = middle stop h ls ((p, d) ∷ bs) c in
      let first = before-front stop h ls p d bs c in
      let away = has-append r ls ((p, d) ∷ bs) in
      let near = has-append r ls ((p, d) ∷ []) in
      let g = update h r (some (node e (head_of stop bs))) in
      relink stop h (update g p (some (node d r))) ls p d bs ((r, e) ∷ bs) c
        (λ a i. ground (arith, i, first, has-differs a r ls i (ground (arith, away, out))))
        (ground arith)
        (
          ne,
          ground (arith, away, out),
          ground (arith, away, out),
          Cells-update stop g p (some (node d r)) bs
              (Cells-update stop h r (some (node e (head_of stop bs))) bs rest.3
                (ground (arith, away, out)))
              rest.1,
        )
        (λ a i. ground (
          arith,
          behind-front stop h ls p d bs c a i,
          has-differs a r (ls ++ (p, d) ∷ []) i (ground (arith, near, away, out)),
        ))
