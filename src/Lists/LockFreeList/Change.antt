-- ===== src/Lists/LockFreeList/Change.antt =====
-- `add` and `remove` of `LockFreeList` between two neighbours that `locate` has found.
use tl2_cpp.Common.{
  ℕ, ◌%◌, ◌<◌, ◌≡◌, ◌≢◌, refl, ap, ◌∙◌, Bool, true, false, Option, none, some, ◌∷◌, ◌++◌, ◌==◌,
  arith, update, Bool-cases, inl, inr,
}
use tl2_cpp.Common.Res.{ok}
use tl2_cpp.Heap.{Node, node, Heap, null, construct}
use tl2_cpp.Heap.Cells.{head_of, has, Cells-frame, has-fresh, has-append, middle}
use tl2_cpp.Heap.Relink.{unlink-Cells, unlink-has, insert-Cells, has-differs}
use tl2_cpp.Lists.Sorted.{Entry, int_max}
use tl2_cpp.Lists.LockFreeList.{LockFreeList, pack, compare_and_set}
use tl2_cpp.Lists.LockFreeList.Marked.{view, view-even, view-update, compare_and_set-view, unpacked}
use tl2_cpp.Lists.LockFreeList.Set.{IsMarked, Above-weaken}
use tl2_cpp.Lists.LockFreeList.Keys.{
  Marks, Ascending-relink, Ascending-behind, first_cell-relink, reaches-insert,
}

update-same :
    {D : Type 0} (f g : Heap D) (p a : ℕ) (x : Option (Node D))
    → f a ≡ g a
    → update f p x a ≡ update g p x a
update-same f g p a x e = elim (Bool-cases (p == a)) [ inl s ↦ rw s refl | inr o ↦ rw o e ]

module _ {T : Type 0} where
  -- Two nodes are written: the view.
  view-twice :
      (h : Heap (Entry T)) (r p : ℕ) (e d : Entry T) (m n : Bool) (q s a : ℕ)
      → q % 2 ≡ 0
      → s % 2 ≡ 0
      → view (update (update h r (some (node e (pack q m)))) p (some (node d (pack s n)))) a
        ≡ update (update (view h) r (some (node (e, m) q))) p (some (node (d, n) s)) a
  view-twice h r p e d m n q s a even_q even_s =
      view-update (update h r (some (node e (pack q m)))) p d n s a even_s
      ∙ update-same (view (update h r (some (node e (pack q m)))))
          (update (view h) r (some (node (e, m) q))) p a (some (node (d, n) s))
          (view-update h r e m q a even_q)

module _ {T : Type 0} (l : LockFreeList) (h : Heap (Entry T)) (key pred curr : ℕ) (b f : Entry T)
    (fs back : Marks T) (s : IsMarked l h (fs ++ (pred, (b, false)) ∷ (curr, (f, false)) ∷ back))
    (below : b.key < key) where
  -- A new node for the key is linked between the two.
  pub insert-IsMarked :
      (p : ℕ) (n : Entry T)
      → p ≢ null
      → p % 2 ≡ 0
      → h p ≡ none
      → n.key ≡ key
      → key < f.key
      → (h' : Heap (Entry T)) × (compare_and_set
            (construct h p n (pack curr false))
            pred
            curr
            p
            false
            false
          ≡ ok (true, h'))
        × IsMarked l h' (fs ++ (pred, (b, false)) ∷ (p, (n, false)) ∷ (curr, (f, false)) ∷ back)
  insert-IsMarked p n ne even fresh same above =
      let two =
        middle l.tail (view h) fs ((pred, (b, false)) ∷ (curr, (f, false)) ∷ back) s.cells in
      let out =
        has-fresh l.tail p (view h) (fs ++ (pred, (b, false)) ∷ (curr, (f, false)) ∷ back) s.cells
          (ap unpacked fresh) in
      let apart : (p == pred) ≡ false =
        ground (arith, out, has-append p fs ((pred, (b, false)) ∷ (curr, (f, false)) ∷ back)) in
      let even_curr = view-even h pred (b, false) curr two.2 in
      let g = construct h p n (pack curr false) in
      let new = fs ++ (pred, (b, false)) ∷ (p, (n, false)) ∷ (curr, (f, false)) ∷ back in
      (
        update g pred (some (node b (pack p false))),
        compare_and_set-view g pred b curr p false false two.0 (rw apart two.2),
        record {
          cells =
              Cells-frame l.tail
                (update (update (view h) p (some (node (n, false) curr))) pred
                  (some (node (b, false) p)))
                (view (update g pred (some (node b (pack p false))))) new
                (insert-Cells l.tail (view h) fs pred p (b, false) (n, false)
                  ((curr, (f, false)) ∷ back) s.cells ne out)
                (λ a _. view-twice h p pred n b false false curr p a even_curr even);
          first =
              first_cell-relink (pred, (b, false)) fs ((curr, (f, false)) ∷ back)
                ((p, (n, false)) ∷ (curr, (f, false)) ∷ back)
              ∙ s.first;
          order =
              Ascending-relink pred b false fs ((curr, (f, false)) ∷ back)
                ((p, (n, false)) ∷ (curr, (f, false)) ∷ back) s.order
                (
                  omega (arith, below, same),
                  (
                    omega (arith, above, same),
                    (Ascending-behind pred b false fs ((curr, (f, false)) ∷ back) s.order).1,
                  ),
                );
          reach =
              reaches-insert int_max (pred, (b, false)) p n fs ((curr, (f, false)) ∷ back)
              ∙ ground (arith, s.reach);
        },
      )

  -- The second of the two is marked, and the first linked past it.
  pub erase-IsMarked :
      f.key ≡ key
      → key < int_max
      → (h₂ h₃ : Heap (Entry T)) × (compare_and_set h curr
            (head_of l.tail back)
            (head_of l.tail back)
            false
            true
          ≡ ok (true, h₂))
        × (compare_and_set h₂ pred curr (head_of l.tail back) false false ≡ ok (true, h₃))
        × IsMarked l h₃ (fs ++ (pred, (b, false)) ∷ back)
  erase-IsMarked same above =
      let two =
        middle l.tail (view h) fs ((pred, (b, false)) ∷ (curr, (f, false)) ∷ back) s.cells in
      let r = head_of l.tail back in
      let apart : (curr == pred) ≡ false = ground (arith, two.1) in
      let rest = Ascending-behind pred b false fs ((curr, (f, false)) ∷ back) s.order in
      let even = view-even h curr (f, false) r two.3.2 in
      let h₂ = update h curr (some (node f (pack r true))) in
      let h₃ = update h₂ pred (some (node b (pack r false))) in
      (
        h₂,
        h₃,
        compare_and_set-view h curr f r r false true two.3.0 two.3.2,
        compare_and_set-view h₂ pred b curr r false false two.0 (rw apart two.2),
        record {
          cells =
              Cells-frame l.tail (update (view h) pred (some (node (b, false) r))) (view h₃)
                (fs ++ (pred, (b, false)) ∷ back)
                (unlink-Cells l.tail (view h) fs pred curr (b, false) (f, false) back s.cells)
                (λ a i.
                  view-twice h curr pred f b true false r r a even even
                  ∙ update-same (update (view h) curr (some (node (f, true) r))) (view h) pred a
                      (some (node (b, false) r)) (elsewhere a i));
          first =
              first_cell-relink (pred, (b, false)) fs ((curr, (f, false)) ∷ back) back ∙ s.first;
          order =
              Ascending-relink pred b false fs ((curr, (f, false)) ∷ back) back s.order
                (Above-weaken b.key f.key back (omega (arith, rest.0)) rest.1);
          reach = ground (
            arith,
            s.reach,
            same,
            above,
            reaches-insert int_max (pred, (b, false)) curr f fs back,
          );
        },
      )
    where
      elsewhere :
          (a : ℕ)
          → has a (fs ++ (pred, (b, false)) ∷ back) ≡ true
          → update (view h) curr (some (node (f, true) (head_of l.tail back))) a ≡ view h a
      elsewhere a i = ground (
        arith,
        i,
        has-differs a curr (fs ++ (pred, (b, false)) ∷ back) i
            (unlink-has l.tail (view h) fs pred curr (b, false) (f, false) back s.cells),
      )
