-- ===== src/Lists/HashMap/Buckets.antt =====
-- The buckets of `HashMap` in one heap.
use tl2_cpp.Common.{
  ℕ, ◌≡◌, sym, ap, ◌∙◌, true, false, ◌||◌, List, ◌==◌, arith, update, Bool-cases, inl, inr, ◌⊎◌,
  if◌then◌else◌, eq_of_==,
}
use tl2_cpp.Heap.{Heap, null}
use tl2_cpp.Heap.Cells.{has, Cells-frame}
use tl2_cpp.Lists.LinkedList.{LinkedList}
use tl2_cpp.Lists.LinkedList.Cells.{Holds}

module _ {T : Type 0} where
  -- Every bucket is a list, and no two have a node in common.
  pub record IsMap (m : ℕ → LinkedList) (h : Heap T) (cs : ℕ → List (ℕ × T)) : Type 0 where
    pub lists : (i : ℕ) → Holds (m i) h (cs i)
    pub separate : (i j a : ℕ) → (i == j) ≡ false → has a (cs i) ≡ true → has a (cs j) ≡ false

  Holds-frame :
      (l : LinkedList) (h g : Heap T) (xs : List (ℕ × T))
      → Holds l h xs
      → ((a : ℕ) → has a xs ≡ true → g a ≡ h a)
      → Holds l g xs
  Holds-frame l h g xs s same = record {
    cells = Cells-frame null h g xs s.cells same;
    head = s.head;
    size = s.size;
  }

  differs : (a p : ℕ) (xs : List (ℕ × T)) → has a xs ≡ true → has p xs ≡ false → (a == p) ≡ false
  differs a p xs i o = elim (Bool-cases (a == p)) [
    | inl e ↦ absurd (ground (arith, i, ap (λ c. has c xs) (eq_of_== a p e) ∙ o))
    | inr n ↦ n
  ]

  -- One bucket is exchanged for a list of the same nodes and the one at `p`.
  pub IsMap-update :
      (m : ℕ → LinkedList) (h : Heap T) (cs : ℕ → List (ℕ × T))
      → IsMap m h cs
      → (b p : ℕ) (l : LinkedList) (g : Heap T) (zs : List (ℕ × T)) → Holds l g zs
      → ((a : ℕ) → has a zs ≡ true → ((a == p) || has a (cs b)) ≡ true)
      → ((a : ℕ) → has a (cs b) ≡ false → (a == p) ≡ false → g a ≡ h a)
      → ((i : ℕ) → has p (cs i) ≡ false)
      → IsMap (update m b l) g (update cs b zs)
  IsMap-update m h cs s b p l g zs new among same out = record {
    lists = λ i. elim (Bool-cases (b == i)) [
      | inl e ↦ rw e new
      | inr n ↦ rw n (
          Holds-frame (m i) h g (cs i) (s.lists i) (λ a here.
            same a (s.separate i b a (ground (arith, n)) here) (differs a p (cs i) here (out i))))
    ];
    separate =
        λ i j a ne here. apart-update i j a ne (Bool-cases (b == i)) (Bool-cases (b == j)) here;
  }
    where
      apart-update :
          (i j a : ℕ)
          → (i == j) ≡ false
          → ((b == i) ≡ true) ⊎ ((b == i) ≡ false)
          → ((b == j) ≡ true) ⊎ ((b == j) ≡ false)
          → has a (update cs b zs i) ≡ true
          → has a (update cs b zs j) ≡ false
      apart-update i j a ne (inl e) (inl f) here = absurd (ground (arith, e, f, ne))
      apart-update i j a ne (inl e) (inr f) here =
          let old : has a zs ≡ true = ap (λ c. has a (if c then zs else cs i)) (sym e) ∙ here in
          rw f (elim (Bool-cases (a == p)) [
            | inl g ↦ ap (λ c. has c (cs j)) (eq_of_== a p g) ∙ out j
            | inr g ↦ s.separate b j a f (ground (arith, among a old, g))
          ])
      apart-update i j a ne (inr e) (inl f) here =
          let old : has a (cs i) ≡ true = ap (λ c. has a (if c then zs else cs i)) (sym e) ∙ here in
          let other = s.separate i b a (ground (arith, e)) old in
          rw f (elim (Bool-cases (has a zs)) [
            | inl g ↦ absurd (ground (arith, among a g, other, differs a p (cs i) old (out i)))
            | inr g ↦ g
          ])
      apart-update i j a ne (inr e) (inr f) here =
          let old : has a (cs i) ≡ true = ap (λ c. has a (if c then zs else cs i)) (sym e) ∙ here in
          rw f (s.separate i j a ne old)
