-- ===== src/Lists/Sorted/Fresh.antt =====
-- What the operations of the sorted lists leave alone: an address without a node has none
-- afterwards, but for the new node; and the list grows by at most one.
use tl2_cpp.Common.{
  ℕ, suc, ◌≤◌, ◌⊎◌, ◌≡◌, refl, ap, ◌∙◌, sym, Bool, true, false, none, some, List, [], ◌∷◌, ◌==◌,
  length, arith, inl, inr, if◌then◌else◌,
}
use tl2_cpp.Common.Res.{Res, ok, ◌>>=◌, ok-injective, >>=-eq-ok}
use tl2_cpp.Heap.Cells.{set_next-dead}
use tl2_cpp.Heap.{Heap, at, construct, set_next}
use tl2_cpp.Lists.Sorted.{Entry, entry, link, unlink}
use tl2_cpp.Lists.Sorted.Keys.{insert_key, erase_key}

module _ {D : Type 0} where
  -- One of the two branches has returned.
  picked :
      (c : Bool) (yes_branch no_branch : Res (Bool × Heap D)) {r : Bool × Heap D}
      → (if c then yes_branch else no_branch) ≡ ok r
      → (yes_branch ≡ ok r) ⊎ (no_branch ≡ ok r)
  picked true y n e = inl e
  picked false y n e = inr e

  abbrev answer : Bool → Heap D → Res (Bool × Heap D)
  answer b h = ok (b, h)

  relinked :
      (h h' : Heap D) (p q z : ℕ) (b : Bool)
      → (set_next h p q >>= answer true) ≡ answer b h'
      → h z ≡ none
      → h' z ≡ none
  relinked h h' p q z b e dead =
      let (g, moved, done) = >>=-eq-ok (set_next h p q) (answer true) e in
      ap (λ (r : Bool × Heap D). r.1 z) (sym (ok-injective done))
      ∙ set_next-dead h g p q z moved dead

  untouched :
      (h h' : Heap D) (z : ℕ) (b : Bool) → answer false h ≡ answer b h' → h z ≡ none → h' z ≡ none
  untouched h h' z b e dead = ap (λ (r : Bool × Heap D). r.1 z) (sym (ok-injective e)) ∙ dead

module _ {T : Type 0} where
  pub link-dead :
      (p : ℕ) (x : T) (key : ℕ) (h h' : Heap (Entry T)) (pred curr z : ℕ) (b : Bool)
      → link p x key h pred curr ≡ ok (b, h')
      → (p == z) ≡ false
      → h z ≡ none
      → h' z ≡ none
  unfolding link
  link-dead p x key h h' pred curr z b e ne dead =
      let (n, got, done) = >>=-eq-ok (at h curr) _ e in
      elim (picked (n.data_of.key == key) _ _ done) [
        | inl same ↦ untouched h h' z b same dead
        | inr new ↦
            relinked (construct h p (entry (some x) key) curr) h' pred p z b new (rw ne dead)
      ]

  pub unlink-dead :
      (key : ℕ) (h h' : Heap (Entry T)) (pred curr z : ℕ) (b : Bool)
      → unlink key h pred curr ≡ ok (b, h')
      → h z ≡ none
      → h' z ≡ none
  unfolding unlink
  unlink-dead key h h' pred curr z b e dead =
      let (n, got, done) = >>=-eq-ok (at h curr) _ e in
      elim (picked (n.data_of.key == key) _ _ done) [
        | inl moved ↦ relinked h h' pred n.next z b moved dead
        | inr same ↦ untouched h h' z b same dead
      ]

  pub length-insert_key :
      (p : ℕ) (e : Entry T) (xs : List (ℕ × Entry T)) → length (insert_key p e xs) ≡ suc (length xs)
  unfolding insert_key
  length-insert_key p e [] = refl
  length-insert_key p e ((q, d) ∷ xs) = ground (arith, length-insert_key p e xs)

  pub length-erase_key : (k : ℕ) (xs : List (ℕ × Entry T)) → length (erase_key k xs) ≤ length xs
  unfolding erase_key
  length-erase_key k [] = omega arith
  length-erase_key k ((q, d) ∷ xs) = ground (arith, length-erase_key k xs)
