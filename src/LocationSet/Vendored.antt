-- ===== src/LocationSet/Vendored.antt =====
-- What tl2/op.h relies on of the two libraries that are vendored in tl2/.
use mathlib.Core.List.{Permᴰ}
use tl2_cpp.Common.{ℕ, ◌≤◌, ◌≡◌, Option, none, some, List, [], ◌∷◌, ◌==◌, if◌then◌else◌}

-- `ankerl::unordered_dense::map<addr_t, size_t>`: `emplace` of a key that is not there adds it, and
-- only it.
pub record AddrMap : Type 1 where
  pub Map : Type 0
  pub empty : Map
  pub find : ℕ → Map → Option ℕ
  pub emplace : ℕ → ℕ → Map → Map
  pub find-empty : (a : ℕ) → find a empty ≡ none
  pub find-emplace :
      (a b n : ℕ) (m : Map)
      → find a m ≡ none
      → find b (emplace a n m) ≡ (if a == b then some n else find b m)

-- The keys ascend.
abbrev pub IsSorted {ℓ} : {A : Type ℓ} → (A → ℕ) → List A → Type 0
IsSorted key [] = Unit
IsSorted key (x ∷ []) = Unit
IsSorted key (x ∷ y ∷ xs) = (key x ≤ key y) × IsSorted key (y ∷ xs)

-- `ska_sort(begin, end, key)`: the same items, by ascending key.
pub record Sorter : Type 1 where
  pub sort : {A : Type 0} → (A → ℕ) → List A → List A
  pub sort-perm : {A : Type 0} (key : A → ℕ) (xs : List A) → Permᴰ xs (sort key xs)
  pub sort-IsSorted : {A : Type 0} (key : A → ℕ) (xs : List A) → IsSorted key (sort key xs)
