-- ===== src/Tests/Concrete.antt =====
-- Concrete values for the vendored map and sort: an association list and insertion sort.
use mathlib.Core.List.{Permᴰ}
use mathlib.Core.List.Permᴰ
use tl2_cpp.Common.{
  ℕ, ◌≤◌, refl, Option, none, some, List, [], ◌∷◌, ◌==◌, leb, leb→le, if◌then◌else◌, arith, inl,
  inr, Bool-cases,
}
use tl2_cpp.LocationSet.Vendored.{AddrMap, Sorter, IsSorted}

abbrev pub find : ℕ → List (ℕ × ℕ) → Option ℕ
find a [] = none
find a ((b, n) ∷ es) = if b == a then some n else find a es

abbrev pub assoc : AddrMap
assoc = record {
  Map = List (ℕ × ℕ);
  empty = [];
  find = find;
  emplace = λ a n es. (a, n) ∷ es;
  find-empty = λ a. refl;
  find-emplace = λ a b n es h. refl;
}

module _ {A : Type 0} (key : A → ℕ) where
  abbrev pub insert : A → List A → List A
  insert x [] = x ∷ []
  insert x (y ∷ ys) = if leb (key x) (key y) then x ∷ y ∷ ys else y ∷ insert x ys

  abbrev pub sort : List A → List A
  sort [] = []
  sort (x ∷ xs) = insert x (sort xs)

  insert-perm : (x : A) (ys : List A) → Permᴰ (x ∷ ys) (insert x ys)
  insert-perm x [] = Permᴰ.refl (x ∷ [])
  insert-perm x (y ∷ ys) = elim (Bool-cases (leb (key x) (key y))) [
    | inl h ↦ rw h (Permᴰ.refl (x ∷ y ∷ ys))
    | inr h ↦ rw h (Permᴰ.trans (Permᴰ.swap refl refl) (Permᴰ.cons refl (insert-perm x ys)))
  ]

  pub sort-perm : (xs : List A) → Permᴰ xs (sort xs)
  sort-perm [] = Permᴰ.nil
  sort-perm (x ∷ xs) = Permᴰ.trans (Permᴰ.cons refl (sort-perm xs)) (insert-perm x (sort xs))

  -- An insertion behind a head that is no larger.
  cons-insert :
      (x y : A) (ys : List A)
      → key y ≤ key x
      → IsSorted key (y ∷ ys)
      → IsSorted key (y ∷ insert x ys)
  cons-insert x y [] le h = (le, tt)
  cons-insert x y (z ∷ zs) le h = elim (Bool-cases (leb (key x) (key z))) [
    | inl e ↦ rw e (le, (leb→le (key x) (key z) e, h.1))
    | inr e ↦ rw e (h.0, cons-insert x z zs (ground arith) h.1)
  ]

  insert-IsSorted : (x : A) (ys : List A) → IsSorted key ys → IsSorted key (insert x ys)
  insert-IsSorted x [] h = tt
  insert-IsSorted x (y ∷ ys) h = elim (Bool-cases (leb (key x) (key y))) [
    | inl e ↦ rw e (leb→le (key x) (key y) e, h)
    | inr e ↦ rw e (cons-insert x y ys (ground arith) h)
  ]

  pub sort-IsSorted : (xs : List A) → IsSorted key (sort xs)
  sort-IsSorted [] = tt
  sort-IsSorted (x ∷ xs) = insert-IsSorted x (sort xs) (sort-IsSorted xs)

abbrev pub insertion : Sorter
insertion = record { sort = sort; sort-perm = sort-perm; sort-IsSorted = sort-IsSorted }
