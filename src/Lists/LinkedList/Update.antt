-- ===== src/Lists/LinkedList/Update.antt =====
-- `LinkedList::update`.
use tl2_cpp.Common.{
  ℕ, suc, ◌^◌, ◌%◌, ◌<◌, ◌≤◌, ◌≡◌, ◌≢◌, refl, sym, ap, ◌∙◌, Bool, true, false, ◌||◌, some, List, [],
  ◌∷◌, ◌==◌, if◌then◌else◌, length, arith, update, Bool-cases, inl, inr,
}
use tl2_cpp.Common.Res.{ok}
use tl2_cpp.Heap.{Heap, node, null, set_data}
use tl2_cpp.Heap.Cells.{head_of, has, Cells, Cells-update, set_data-live}
use tl2_cpp.Lists.LinkedList.{LinkedList, find, replace}
use tl2_cpp.Lists.LinkedList.Cells.{Holds, items, add-Holds}
use tl2_cpp.Lists.LinkedList.Search.{any, address, find-address, address-null}

module _ {T : Type 0} (matches : T → T → Bool) where
  -- The first match is exchanged.
  unfoldable pub swap : T → T → List T → List T
  swap x z [] = []
  swap x z (y ∷ ys) = if matches y x then z ∷ ys else y ∷ swap x z ys

  unfoldable pub swap_cell : T → T → List (ℕ × T) → List (ℕ × T)
  swap_cell x z [] = []
  swap_cell x z ((p, y) ∷ xs) = if matches y x then (p, z) ∷ xs else (p, y) ∷ swap_cell x z xs

  head_of-swap_cell :
      (x z : T) (xs : List (ℕ × T)) → head_of null (swap_cell x z xs) ≡ head_of null xs
  unfolding swap_cell
  head_of-swap_cell x z [] = refl
  head_of-swap_cell x z ((p, y) ∷ xs) = ground arith

  has-swap_cell : (a : ℕ) (x z : T) (xs : List (ℕ × T)) → has a (swap_cell x z xs) ≡ has a xs
  unfolding swap_cell
  has-swap_cell a x z [] = refl
  has-swap_cell a x z ((p, y) ∷ xs) = ground (arith, has-swap_cell a x z xs)

  length-swap_cell : (x z : T) (xs : List (ℕ × T)) → length (swap_cell x z xs) ≡ length xs
  unfolding swap_cell
  length-swap_cell x z [] = refl
  length-swap_cell x z ((p, y) ∷ xs) = ground (arith, length-swap_cell x z xs)

  items-swap_cell : (x z : T) (xs : List (ℕ × T)) → items (swap_cell x z xs) ≡ swap x z (items xs)
  unfolding swap_cell swap
  items-swap_cell x z [] = refl
  items-swap_cell x z ((p, y) ∷ xs) = ground (arith, items-swap_cell x z xs)

  set_data-swap_cell :
      (h : Heap T) (x z : T) (xs : List (ℕ × T))
      → Cells null h xs
      → any matches x (items xs) ≡ true
      → (h' : Heap T) × (set_data h (address matches x xs) z ≡ ok h')
        × Cells null h' (swap_cell x z xs)
        × ((a : ℕ) → has a xs ≡ false → h' a ≡ h a)
  unfolding swap_cell
  set_data-swap_cell h x z [] c i = cc
  set_data-swap_cell h x z ((p, y) ∷ xs) c i = elim (Bool-cases (matches y x)) [
    | inl hit ↦
        let n = some (node z (head_of null xs)) in
        (
          update h p n,
          rw hit (set_data-live h p y z (head_of null xs) c.0 c.2),
          rw hit (c.0, c.1, ground arith, Cells-update null h p n xs c.3 c.1),
          λ a out. ground (arith, out),
        )
    | inr miss ↦
        let (h', done, rest, same) = set_data-swap_cell h x z xs c.3 (ground (arith, i)) in
        (
          h',
          rw miss done,
          rw miss (
            c.0,
            has-swap_cell p x z xs ∙ c.1,
            same p c.1 ∙ c.2 ∙ ap (λ r. some (node y r)) (sym (head_of-swap_cell x z xs)),
            rest,
          ),
          λ a out. same a (ground (arith, out)),
        )
  ]

  -- What `update` leaves: the first match exchanged, or the new item in front if there is none; at
  -- most one more cell, at `p`; the nodes of others as before.
  pub record Replaced (p : ℕ) (x z : T) (h : Heap T) (xs : List (ℕ × T)) (l' : LinkedList)
      (h' : Heap T) : Type 0 where
    pub cells : List (ℕ × T)
    pub holds : Holds l' h' cells
    pub left :
        items cells ≡ (if any matches x (items xs) then swap x z (items xs) else z ∷ items xs)
    pub room : length cells ≤ suc (length xs)
    pub among : (a : ℕ) → has a cells ≡ true → ((a == p) || has a xs) ≡ true
    pub same : (a : ℕ) → has a xs ≡ false → (a == p) ≡ false → h' a ≡ h a

  -- `update` exchanges the first item that matches, or puts the new item in front if none does. It
  -- changes no node but those of the list and the new one.
  pub replace-Replaced :
      (k p : ℕ) (x z : T) (l : LinkedList) (h : Heap T) (xs : List (ℕ × T))
      → Holds l h xs
      → length xs < k
      → p ≢ null
      → has p xs ≡ false
      → (l' : LinkedList) × (h' : Heap T) × (replace matches k p x z l h ≡ ok (l', h'))
        × Replaced p x z h xs l' h'
  unfolding replace
  replace-Replaced k p x z l h xs s enough ne out = elim (Bool-cases (any matches x (items xs))) [
    | inl i ↦
        let (h', done, c, same) = set_data-swap_cell h x z xs s.cells i in
        (
          l,
          h',
          rw (s.head, find-address matches k h x xs s.cells enough)
              (rw (address-null matches h x xs s.cells, i) (rw done refl)),
          record {
            cells = swap_cell x z xs;
            holds = record {
              cells = c;
              head = s.head ∙ sym (head_of-swap_cell x z xs);
              size = s.size ∙ ap (λ n. n % 2 ^ 64) (sym (length-swap_cell x z xs));
            };
            left = rw i (items-swap_cell x z xs);
            room = omega (arith, length-swap_cell x z xs);
            among = λ a here. ground (arith, has-swap_cell a x z xs, here);
            same = λ a o _. same a o;
          },
        )
    | inr n ↦
        let (l', h', done, s', same) = add-Holds p z l h xs s ne out in
        (
          l',
          h',
          rw (ap (find matches k h x) s.head ∙ find-address matches k h x xs s.cells enough)
              (rw (address-null matches h x xs s.cells, n) done),
          record {
            cells = (p, z) ∷ xs;
            holds = s';
            left = rw n refl;
            room = omega arith;
            among = λ a here. here;
            same = λ a _ o. same a o;
          },
        )
  ]
