-- ===== src/Lists/LockFreeList/Keys.antt =====
-- The keys of a list with marked nodes, where it changes between two neighbours.
use tl2_cpp.Common.{
  ℕ, ◌<◌, ◌≤◌, ◌≡◌, refl, sym, ap, ◌∙◌, Bool, false, not, ◌&&◌, ◌||◌, List, [], ◌∷◌, ◌++◌, ◌==◌,
  leb, arith, Bool-cases, inl, inr, eq_of_==,
}
use tl2_cpp.Lists.Sorted.{Entry}
use tl2_cpp.Lists.LockFreeList.Locate.{reaches, has_live}
use tl2_cpp.Lists.LockFreeList.Set.{Above, Ascending, first_cell, Above-weaken}

-- Cells with their marks.
abbrev pub Marks : Type 0 → Type 0
Marks T = List (ℕ × (Entry T × Bool))

module _ {T : Type 0} where
  Above-mid :
      (lo a : ℕ) (b : Entry T) (m : Bool) (fs rest : Marks T)
      → Above lo (fs ++ (a, (b, m)) ∷ rest)
      → lo < b.key
  Above-mid lo a b m [] rest o = o.0
  Above-mid lo a b m ((q, (e, n)) ∷ fs) rest o =
      omega (arith, o.0, Above-mid e.key a b m fs rest o.1)

  Above-relink :
      (lo a : ℕ) (b : Entry T) (m : Bool) (fs rest new : Marks T)
      → Above lo (fs ++ (a, (b, m)) ∷ rest)
      → Above b.key new
      → Above lo (fs ++ (a, (b, m)) ∷ new)
  Above-relink lo a b m [] rest new o n = (o.0, n)
  Above-relink lo a b m ((q, (e, k)) ∷ fs) rest new o n =
      (o.0, Above-relink e.key a b m fs rest new o.1 n)

  pub Ascending-relink :
      (a : ℕ) (b : Entry T) (m : Bool) (fs rest new : Marks T)
      → Ascending (fs ++ (a, (b, m)) ∷ rest)
      → Above b.key new
      → Ascending (fs ++ (a, (b, m)) ∷ new)
  Ascending-relink a b m [] rest new o n = n
  Ascending-relink a b m ((q, (e, k)) ∷ fs) rest new o n = Above-relink e.key a b m fs rest new o n

  Above-behind :
      (lo a : ℕ) (b : Entry T) (m : Bool) (fs rest : Marks T)
      → Above lo (fs ++ (a, (b, m)) ∷ rest)
      → Above b.key rest
  Above-behind lo a b m [] rest o = o.1
  Above-behind lo a b m ((q, (e, k)) ∷ fs) rest o = Above-behind e.key a b m fs rest o.1

  pub Ascending-behind :
      (a : ℕ) (b : Entry T) (m : Bool) (fs rest : Marks T)
      → Ascending (fs ++ (a, (b, m)) ∷ rest)
      → Above b.key rest
  Ascending-behind a b m [] rest o = o
  Ascending-behind a b m ((q, (e, k)) ∷ fs) rest o = Above-behind e.key a b m fs rest o

  pub first_cell-relink :
      (x : ℕ × (Entry T × Bool)) (fs rest new : Marks T)
      → first_cell (fs ++ x ∷ new) ≡ first_cell (fs ++ x ∷ rest)
  first_cell-relink x [] rest new = refl
  first_cell-relink x (y ∷ fs) rest new = refl

  pub has_live-insert :
      (j : ℕ) (x : ℕ × (Entry T × Bool)) (p : ℕ) (n : Entry T) (fs rest : Marks T)
      → has_live j (fs ++ x ∷ (p, (n, false)) ∷ rest)
        ≡ ((n.key == j) || has_live j (fs ++ x ∷ rest))
  has_live-insert j x p n [] rest = ground arith
  has_live-insert j x p n (y ∷ fs) rest = ground (arith, has_live-insert j x p n fs rest)

  pub reaches-insert :
      (j : ℕ) (x : ℕ × (Entry T × Bool)) (p : ℕ) (n : Entry T) (fs rest : Marks T)
      → reaches j (fs ++ x ∷ (p, (n, false)) ∷ rest) ≡ (leb j n.key || reaches j (fs ++ x ∷ rest))
  reaches-insert j x p n [] rest = ground arith
  reaches-insert j x p n (y ∷ fs) rest = ground (arith, reaches-insert j x p n fs rest)

  pub live-Above : (key lo : ℕ) (xs : Marks T) → Above lo xs → key ≤ lo → has_live key xs ≡ false
  live-Above key lo [] o le = refl
  live-Above key lo ((q, (e, m)) ∷ xs) o le =
      ground (arith, live-Above key e.key xs o.1 (omega (arith, o.0, le)), o.0, le)

  live-before :
      (key lo a : ℕ) (b : Entry T) (m : Bool) (fs rest : Marks T)
      → Above lo (fs ++ (a, (b, m)) ∷ rest)
      → b.key < key
      → has_live key (fs ++ (a, (b, m)) ∷ rest) ≡ has_live key rest
  live-before key lo a b m [] rest o lt = ground (arith, lt)
  live-before key lo a b m ((q, (e, k)) ∷ fs) rest o lt =
      ground
        (arith, live-before key e.key a b m fs rest o.1 lt, Above-mid e.key a b m fs rest o.1, lt)

  -- What is before a smaller key does not matter.
  pub live-behind :
      (key a : ℕ) (b : Entry T) (m : Bool) (fs rest : Marks T)
      → Ascending (fs ++ (a, (b, m)) ∷ rest)
      → b.key < key
      → has_live key (fs ++ (a, (b, m)) ∷ rest) ≡ has_live key rest
  live-behind key a b m [] rest o lt = ground (arith, lt)
  live-behind key a b m ((q, (e, k)) ∷ fs) rest o lt =
      ground (arith, live-before key e.key a b m fs rest o lt, Above-mid e.key a b m fs rest o, lt)

  -- Behind a smaller key, an unmarked cell that is not smaller tells whether the key is there.
  pub live-stop :
      (key a c : ℕ) (b f : Entry T) (m : Bool) (fs back : Marks T)
      → Ascending (fs ++ (a, (b, m)) ∷ (c, (f, false)) ∷ back)
      → b.key < key
      → key ≤ f.key
      → has_live key (fs ++ (a, (b, m)) ∷ (c, (f, false)) ∷ back) ≡ (f.key == key)
  live-stop key a c b f m fs back o lt le =
      let rest = Ascending-behind a b m fs ((c, (f, false)) ∷ back) o in
      ground (
        arith,
        live-behind key a b m fs ((c, (f, false)) ∷ back) o lt,
        live-Above key f.key back rest.1 le,
      )

  -- The set without an unmarked cell.
  pub has_live-erase :
      (j key a c : ℕ) (b f : Entry T) (m : Bool) (fs back : Marks T)
      → Ascending (fs ++ (a, (b, m)) ∷ (c, (f, false)) ∷ back)
      → b.key < key
      → f.key ≡ key
      → has_live j (fs ++ (a, (b, m)) ∷ back)
        ≡ (not (key == j) && has_live j (fs ++ (a, (b, m)) ∷ (c, (f, false)) ∷ back))
  has_live-erase j key a c b f m fs back o lt e =
      let rest = Ascending-behind a b m fs ((c, (f, false)) ∷ back) o in
      let tail = Above-weaken b.key f.key back (omega (arith, rest.0)) rest.1 in
      let order = Ascending-relink a b m fs ((c, (f, false)) ∷ back) back o tail in
      let gone : has_live key (fs ++ (a, (b, m)) ∷ back) ≡ false =
        live-behind key a b m fs back order lt
        ∙ live-Above key f.key back rest.1 (omega (arith, e)) in
      elim (Bool-cases (key == j)) [
        | inl h ↦
            rw h (ap (λ i. has_live i (fs ++ (a, (b, m)) ∷ back)) (sym (eq_of_== key j h)) ∙ gone)
        | inr h ↦
            ground (arith, h, e, has_live-insert j (a, (b, m)) c f fs back, ap (λ i. i == j) e)
      ]
