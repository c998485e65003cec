-- ===== src/Lists/LinkedList/Cells.antt =====
-- `LinkedList` as a list of items.
use tl2_cpp.Common.{
  ℕ, zero, suc, ◌+◌, ◌^◌, ◌%◌, ◌<◌, ◌≡◌, ◌≢◌, refl, false, none, some, List, [], ◌∷◌, ◌==◌,
  if◌then◌else◌, length, arith, update,
}
use tl2_cpp.Common.Res.{ok}
use tl2_cpp.Heap.{Heap, node, null, construct}
use tl2_cpp.Heap.Cells.{head_of, has, Cells, Cells-update, at-live, set_next-live, delete-live}
use tl2_cpp.Lists.LinkedList.{LinkedList, add, destroy}

-- The list consists of the cells `xs`.
pub record Holds {T : Type 0} (l : LinkedList) (h : Heap T) (xs : List (ℕ × T)) : Type 0 where
  pub cells : Cells null h xs
  pub head : l.head ≡ head_of null xs
  pub size : l.size ≡ length xs % 2 ^ 64

module _ {T : Type 0} where
  -- The items in order.
  abbrev pub items : List (ℕ × T) → List T
  items [] = []
  items ((p, x) ∷ xs) = x ∷ items xs

  -- `add` puts a new node with the item in front.
  pub add-Holds :
      (p : ℕ) (x : T) (l : LinkedList) (h : Heap T) (xs : List (ℕ × T))
      → Holds l h xs
      → p ≢ null
      → has p xs ≡ false
      → (l' : LinkedList) × (h' : Heap T) × (add p x l h ≡ ok (l', h'))
        × Holds l' h' ((p, x) ∷ xs)
        × ((a : ℕ) → (a == p) ≡ false → h' a ≡ h a)
  unfolding add
  add-Holds p x l h xs s ne out = (
    record { head = p; size = (l.size + 1) % 2 ^ 64 },
    update (construct h p x null) p (some (node x l.head)),
    rw (set_next-live (construct h p x null) p x null l.head ne (ground arith)) refl,
    record {
      cells = (
        ne,
        out,
        ground (arith, s.head),
        Cells-update null (construct h p x null) p (some (node x l.head)) xs
            (Cells-update null h p (some (node x null)) xs s.cells out) out,
      );
      head = refl;
      size = omega (arith, s.size);
    },
    λ a other. ground (arith, other),
  )

  -- The destructor deletes every node of the list, and no other.
  pub destroy-Holds :
      (k : ℕ) (h : Heap T) (xs : List (ℕ × T))
      → Cells null h xs
      → length xs < k
      → (h' : Heap T) × (destroy k (head_of null xs) h ≡ ok h')
        × ((a : ℕ) → h' a ≡ (if has a xs then none else h a))
  unfolding destroy
  destroy-Holds zero h xs c enough = absurd (omega (arith, enough))
  destroy-Holds (suc k) h [] c enough = (h, refl, λ a. refl)
  destroy-Holds (suc k) h ((p, x) ∷ xs) c enough =
      let live : (p == null) ≡ false = ground (arith, c.0) in
      let (h', done, gone) =
        destroy-Holds k (update h p none) xs (Cells-update null h p none xs c.3 c.1)
          (omega (arith, enough)) in
      (
        h',
        rw live (
            rw (at-live h p x (head_of null xs) c.0 c.2)
              (rw (delete-live h p x (head_of null xs) c.0 c.2) done)),
        λ a. ground (arith, gone a),
      )
