-- ===== src/Lists/Sorted/Results.antt =====
-- The keys of a sorted list after `add` and `remove`.
use tl2_cpp.Common.{
  ℕ, ◌≡◌, subst, true, false, not, ◌||◌, ◌&&◌, none, some, List, [], ◌∷◌, ◌++◌, ◌==◌, if◌then◌else◌,
  arith, Bool-cases, inl, inr, eq_of_==,
}
use tl2_cpp.Heap.{Heap}
use tl2_cpp.Lists.Sorted.{Entry, entry, int_min, int_max}
use tl2_cpp.Lists.Sorted.Keys.{
  Above, has_key, insert_key, erase_key, has_key-insert_key, has_key-erase_key, Above-front,
}
use tl2_cpp.Lists.Sorted.Ends.{IsList}

module _ {T : Type 0} (stop head tail : ℕ) (key : ℕ) (mid : List (ℕ × Entry T)) where
  -- A list after `add`: the keys are those of before and the new one.
  pub record Added (h' : Heap (Entry T)) : Type 0 where
    pub now : List (ℕ × Entry T)
    pub set : IsList stop head tail h' now
    pub keys : (j : ℕ) → has_key j now ≡ ((key == j) || has_key j mid)

  -- A list after `remove`: the keys are those of before but one.
  pub record Removed (h' : Heap (Entry T)) : Type 0 where
    pub now : List (ℕ × Entry T)
    pub set : IsList stop head tail h' now
    pub keys : (j : ℕ) → has_key j now ≡ (not (key == j) && has_key j mid)

  already : (j : ℕ) → has_key key mid ≡ true → has_key j mid ≡ ((key == j) || has_key j mid)
  already j i = elim (Bool-cases (key == j)) [
    | inl same ↦
        subst (λ k. has_key k mid ≡ ((key == k) || has_key k mid)) (eq_of_== key j same)
          (ground (arith, i))
    | inr other ↦ ground arith
  ]

  never : (j : ℕ) → has_key key mid ≡ false → has_key j mid ≡ (not (key == j) && has_key j mid)
  never j i = elim (Bool-cases (key == j)) [
    | inl same ↦
        subst (λ k. has_key k mid ≡ (not (key == k) && has_key k mid)) (eq_of_== key j same)
          (ground (arith, i))
    | inr other ↦ ground arith
  ]

  -- The keys of the list that `link` leaves, and of the one that `unlink` leaves.
  pub has_key-linked :
      (p : ℕ) (x : T) (j : ℕ)
      → has_key j (if has_key key mid then mid else insert_key p (entry (some x) key) mid)
        ≡ ((key == j) || has_key j mid)
  has_key-linked p x j = elim (Bool-cases (has_key key mid)) [
    | inl i ↦ rw i (already j i)
    | inr n ↦ rw n (has_key-insert_key j p (entry (some x) key) mid)
  ]

  pub has_key-unlinked :
      (j : ℕ)
      → Above int_min (mid ++ (tail, entry none int_max) ∷ [])
      → has_key j (if has_key key mid then erase_key key mid else mid)
        ≡ (not (key == j) && has_key j mid)
  has_key-unlinked j asc = elim (Bool-cases (has_key key mid)) [
    | inl i ↦ rw i (has_key-erase_key j key int_min mid (Above-front int_min mid _ asc))
    | inr n ↦ rw n (never j n)
  ]

  pub Added-link :
      (p : ℕ) (x : T) (h' : Heap (Entry T))
      → IsList stop head tail h'
          (if has_key key mid then mid else insert_key p (entry (some x) key) mid)
      → Added h'
  Added-link p x h' s = record { now = _; set = s; keys = has_key-linked p x }

  pub Removed-unlink :
      (h' : Heap (Entry T))
      → Above int_min (mid ++ (tail, entry none int_max) ∷ [])
      → IsList stop head tail h' (if has_key key mid then erase_key key mid else mid)
      → Removed h'
  Removed-unlink h' asc s = record { now = _; set = s; keys = λ j. has_key-unlinked j asc }
