-- ===== src/Lists/LinkedList/Search.antt =====
-- Searches of `LinkedList`.
use tl2_cpp.Common.{
  ℕ, zero, suc, ◌<◌, ◌≡◌, refl, sym, ap, ◌∙◌, Bool, true, false, not, ◌||◌, Option, none, some,
  List, [], ◌∷◌, ◌==◌, if◌then◌else◌, length, arith, Bool-cases, inl, inr,
}
use tl2_cpp.Common.Res.{Res, ok}
use tl2_cpp.Heap.{Heap, node, null, at}
use tl2_cpp.Heap.Cells.{head_of, has, Cells, at-live}
use tl2_cpp.Lists.LinkedList.{LinkedList, find, contains, get}
use tl2_cpp.Lists.LinkedList.Cells.{Holds, items}

module _ {T : Type 0} (matches : T → T → Bool) where
  -- Whether an item matches, and the first that does.
  abbrev pub any : T → List T → Bool
  any x [] = false
  any x (y ∷ ys) = matches y x || any x ys

  abbrev pub first : T → List T → Option T
  first x [] = none
  first x (y ∷ ys) = if matches y x then some y else first x ys

  -- The address of the first match, or null.
  abbrev pub address : T → List (ℕ × T) → ℕ
  address x [] = null
  address x ((p, y) ∷ xs) = if matches y x then p else address x xs

  pub find-address :
      (k : ℕ) (h : Heap T) (x : T) (xs : List (ℕ × T))
      → Cells null h xs
      → length xs < k
      → find matches k h x (head_of null xs) ≡ ok (address x xs)
  unfolding find
  find-address zero h x xs c enough = absurd (omega (arith, enough))
  find-address (suc k) h x [] c enough = refl
  find-address (suc k) h x ((p, y) ∷ xs) c enough =
      let live : (p == null) ≡ false = ground (arith, c.0) in
      let rest = find-address k h x xs c.3 (omega (arith, enough)) in
      rw live (
        rw (at-live h p y (head_of null xs) c.0 c.2)
          (step (matches y x) p (find matches k h x (head_of null xs)) (address x xs) rest))
    where
      step :
          (b : Bool) (p : ℕ) (r : Res ℕ) (a : ℕ)
          → r ≡ ok a
          → (if b then ok p else r) ≡ ok (if b then p else a)
      step true p r a e = refl
      step false p r a e = e

  pub address-null :
      (h : Heap T) (x : T) (xs : List (ℕ × T))
      → Cells null h xs
      → (address x xs == null) ≡ not (any x (items xs))
  address-null h x [] c = refl
  address-null h x ((p, y) ∷ xs) c = ground (arith, c.0, address-null h x xs c.3)

  pub has-address :
      (x : T) (xs : List (ℕ × T)) → any x (items xs) ≡ true → has (address x xs) xs ≡ true
  has-address x [] i = cc
  has-address x ((p, y) ∷ xs) i = ground (arith, has-address x xs)

  at-address :
      (h : Heap T) (x : T) (xs : List (ℕ × T))
      → Cells null h xs
      → any x (items xs) ≡ true
      → (y : T) × (q : ℕ) × (at h (address x xs) ≡ ok (node y q)) × (first x (items xs) ≡ some y)
  at-address h x [] c i = cc
  at-address h x ((p, y) ∷ xs) c i = elim (Bool-cases (matches y x)) [
    | inl hit ↦ (y, head_of null xs, rw hit (at-live h p y (head_of null xs) c.0 c.2), rw hit refl)
    | inr miss ↦
        let (z, q, e, f) = at-address h x xs c.3 (ground (arith, i)) in (z, q, rw miss e, rw miss f)
  ]

  first-none : (x : T) (ys : List T) → any x ys ≡ false → first x ys ≡ none
  first-none x [] i = refl
  first-none x (y ∷ ys) i = ground (arith, first-none x ys)

  -- `contains` answers whether an item matches.
  pub contains-any :
      (k : ℕ) (x : T) (l : LinkedList) (h : Heap T) (xs : List (ℕ × T))
      → Holds l h xs
      → length xs < k
      → contains matches k x l h ≡ ok (any x (items xs))
  unfolding contains
  contains-any k x l h xs s enough =
      rw (s.head, find-address k h x xs s.cells enough)
        (ap (λ b. ok (not b)) (address-null h x xs s.cells) ∙ ap ok (not_not (any x (items xs))))
    where
      not_not : (b : Bool) → not (not b) ≡ b
      not_not true = refl
      not_not false = refl

  -- `get` returns the first item that matches.
  pub get-first :
      (k : ℕ) (x : T) (l : LinkedList) (h : Heap T) (xs : List (ℕ × T))
      → Holds l h xs
      → length xs < k
      → get matches k x l h ≡ ok (first x (items xs))
  unfolding get
  get-first k x l h xs s enough = elim (Bool-cases (any x (items xs))) [
    | inl i ↦
        let (y, q, e, f) = at-address h x xs s.cells i in
        rw (s.head, find-address k h x xs s.cells enough)
          (rw (address-null h x xs s.cells, i) (rw (e, f) refl))
    | inr n ↦
        rw (s.head, find-address k h x xs s.cells enough)
          (rw (address-null h x xs s.cells, n) (ap ok (sym (first-none x (items xs) n))))
  ]
