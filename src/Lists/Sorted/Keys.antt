-- ===== src/Lists/Sorted/Keys.antt =====
-- Cells in the order of their keys, as a set of keys.
use tl2_cpp.Common.{
  ℕ, ◌<◌, ◌≤◌, ◌≡◌, refl, Bool, false, not, ◌||◌, ◌&&◌, List, [], ◌∷◌, ◌++◌, ◌==◌, ltb,
  if◌then◌else◌, arith, Bool-cases, inl, inr,
}
use tl2_cpp.Lists.Sorted.{Entry}

module _ {T : Type 0} where
  -- The keys ascend, and are above `b`.
  abbrev pub Above : ℕ → List (ℕ × Entry T) → Type 0
  Above b [] = Unit
  Above b ((p, d) ∷ xs) = (b < d.key) × Above d.key xs

  abbrev pub Ascending : List (ℕ × Entry T) → Type 0
  Ascending [] = Unit
  Ascending ((p, d) ∷ xs) = Above d.key xs

  abbrev pub has_key : ℕ → List (ℕ × Entry T) → Bool
  has_key k [] = false
  has_key k ((p, d) ∷ xs) = (d.key == k) || has_key k xs

  -- The cell in its place by its key.
  unfoldable pub insert_key : ℕ → Entry T → List (ℕ × Entry T) → List (ℕ × Entry T)
  insert_key p e [] = (p, e) ∷ []
  insert_key p e ((q, d) ∷ xs) =
      if ltb d.key e.key then (q, d) ∷ insert_key p e xs else (p, e) ∷ (q, d) ∷ xs

  unfoldable pub erase_key : ℕ → List (ℕ × Entry T) → List (ℕ × Entry T)
  erase_key k [] = []
  erase_key k ((q, d) ∷ xs) = if d.key == k then xs else (q, d) ∷ erase_key k xs

  pub Above-weaken : (a b : ℕ) (xs : List (ℕ × Entry T)) → a ≤ b → Above b xs → Above a xs
  Above-weaken a b [] h s = tt
  Above-weaken a b ((q, d) ∷ xs) h s = (omega (arith, s.0), s.1)

  pub has_key-Above :
      (k b : ℕ) (xs : List (ℕ × Entry T)) → Above b xs → k ≤ b → has_key k xs ≡ false
  has_key-Above k b [] s h = refl
  has_key-Above k b ((q, d) ∷ xs) s h =
      ground (arith, s.0, has_key-Above k d.key xs s.1 (omega (arith, s.0)))

  pub insert_key-Above :
      (b p : ℕ) (e : Entry T) (xs : List (ℕ × Entry T))
      → Above b xs
      → b < e.key
      → has_key e.key xs ≡ false
      → Above b (insert_key p e xs)
  unfolding insert_key
  insert_key-Above b p e [] s h new = (h, tt)
  insert_key-Above b p e ((q, d) ∷ xs) s h new = elim (Bool-cases (ltb d.key e.key)) [
    | inl lo ↦ rw lo (s.0, insert_key-Above d.key p e xs s.1 (ground arith) (ground arith))
    | inr hi ↦ rw hi (h, (ground (arith, new), s.1))
  ]

  pub erase_key-Above : (b k : ℕ) (xs : List (ℕ × Entry T)) → Above b xs → Above b (erase_key k xs)
  unfolding erase_key
  erase_key-Above b k [] s = tt
  erase_key-Above b k ((q, d) ∷ xs) s = elim (Bool-cases (d.key == k)) [
    | inl hit ↦ rw hit (Above-weaken b d.key xs (omega (arith, s.0)) s.1)
    | inr miss ↦ rw miss (s.0, erase_key-Above d.key k xs s.1)
  ]

  pub has_key-insert_key :
      (k p : ℕ) (e : Entry T) (xs : List (ℕ × Entry T))
      → has_key k (insert_key p e xs) ≡ ((e.key == k) || has_key k xs)
  unfolding insert_key
  has_key-insert_key k p e [] = refl
  has_key-insert_key k p e ((q, d) ∷ xs) = ground (arith, has_key-insert_key k p e xs)

  pub has_key-erase_key :
      (k j b : ℕ) (xs : List (ℕ × Entry T))
      → Above b xs
      → has_key k (erase_key j xs) ≡ (not (j == k) && has_key k xs)
  unfolding erase_key
  has_key-erase_key k j b [] s = ground arith
  has_key-erase_key k j b ((q, d) ∷ xs) s =
      ground (arith, has_key-erase_key k j d.key xs s.1, has_key-Above k d.key xs s.1)

  pub Above-front : (b : ℕ) (xs ys : List (ℕ × Entry T)) → Above b (xs ++ ys) → Above b xs
  Above-front b [] ys s = tt
  Above-front b ((q, d) ∷ xs) ys s = (s.0, Above-front d.key xs ys s.1)
