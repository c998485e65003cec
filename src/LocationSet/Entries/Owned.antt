-- ===== src/LocationSet/Entries/Owned.antt =====
-- Which entry of a location set owns which staged object of the buffer.
use tl2_cpp.Common.{
  ℕ, ◌+◌, ◌≤◌, ◌≡◌, ◌≢◌, refl, Bool, true, false, Option, none, some, List, [], ◌∷◌, ◌==◌, arith,
  if◌then◌else◌, inl, inr, All, Bool-cases, Option-cases,
}
use tl2_cpp.Common.Res.{Res, ok, ◌>>=◌}
use tl2_cpp.Store.{Store, cell, alive, value}
use tl2_cpp.Location.{Location, WriteVal, blank, staged, val_addr}
use tl2_cpp.LocationSet.Entries.{staged_at}

abbrev pub owns : ℕ → WriteVal → ℕ
owns p blank = 0
owns p (staged q) = if q == p then 1 else 0

-- How many entries own the object at `p`.
unfoldable pub owners : ℕ → List Location → ℕ
owners p [] = 0
owners p (l ∷ ls) = owns p l.write_val + owners p ls

abbrev pub is_staged : WriteVal → Bool
is_staged blank = false
is_staged (staged _) = true

-- An entry has a staged value exactly if it is marked as written.
abbrev pub IsEntry : Location → Type 0
IsEntry l = is_staged l.write_val ≡ l.was_written

-- No thread has marked the entry as locked by it.
abbrev pub IsUnowned : Location → Type 0
IsUnowned l = l.owner ≡ none

module _ {V : Type 0} where
  -- The staged value of an entry, if it is marked as written.
  unfoldable pub val_of : WriteVal → Bool → Store V → Res (Option V)
  val_of w b st = if b then (do v ← value (val_addr w) st; ok (some v)) else ok none

  -- What a read of the address gets from the log: the staged object, if there is one.
  unfoldable pub staged_value : ℕ → List Location → Store V → Res (Option V)
  staged_value a [] st = ok none
  staged_value a (l ∷ ls) st =
      if l.addr == a then val_of l.write_val l.was_written st else staged_value a ls st

  -- The object that a pointer from `find_write` points to, as `TVar` reads it.
  abbrev pub deref : Option ℕ → Store V → Res (Option V)
  deref none st = ok none
  deref (some p) st = do v ← value p st; ok (some v)

  -- The value behind the pointer that `find_write` gives.
  pub staged_value-staged_at :
      (a : ℕ) (ls : List Location) (st : Store V) → deref (staged_at a ls) st ≡ staged_value a ls st
  unfolding staged_at staged_value val_of
  staged_value-staged_at a [] st = refl
  staged_value-staged_at a (l ∷ ls) st = ground (arith, staged_value-staged_at a ls st)

  -- No two entries share an object, and no entry has a dead one.
  pub record IsBacked (ls : List Location) (st : Store V) : Type 0 where
    pub entries : All IsEntry ls
    pub backed : (p : ℕ) → owners p ls ≤ alive p st

  pub tail-IsBacked :
      (l : Location) (ls : List Location) (st : Store V) → IsBacked (l ∷ ls) st → IsBacked ls st
  unfolding owners
  tail-IsBacked l ls st b = record {
    entries = b.entries.1;
    backed = λ p. omega (arith, b.backed p);
  }

  pub val_of-cells :
      (w : WriteVal) (b : Bool) (st st' : Store V)
      → is_staged w ≡ b
      → ((p : ℕ) → owns p w ≢ 0 → cell p st' ≡ cell p st)
      → val_of w b st' ≡ val_of w b st
  unfolding val_of value val_addr
  val_of-cells blank true st st' e same = cc
  val_of-cells blank false st st' e same = refl
  val_of-cells (staged p) true st st' e same = rw (same p (ground arith))
  val_of-cells (staged p) false st st' e same = cc

  -- The staged values depend only on the objects that are owned.
  pub staged_value-cells :
      (a : ℕ) (ls : List Location) (st st' : Store V)
      → All IsEntry ls
      → ((p : ℕ) → owners p ls ≢ 0 → cell p st' ≡ cell p st)
      → staged_value a ls st' ≡ staged_value a ls st
  unfolding staged_value owners
  staged_value-cells a [] st st' e same = refl
  staged_value-cells a (l ∷ ls) st st' e same = elim (Bool-cases (l.addr == a)) [
    | inl hit ↦
        rw hit
          (val_of-cells l.write_val l.was_written st st' e.0 (λ p n. same p (λ z. n (omega arith))))
    | inr miss ↦ rw miss (staged_value-cells a ls st st' e.1 (λ p n. same p (λ z. n (omega arith))))
  ]

  val_of-ok :
      (w : WriteVal) (b : Bool) (st : Store V)
      → is_staged w ≡ b
      → ((p : ℕ) → owns p w ≤ alive p st)
      → (o : Option V) × (val_of w b st ≡ ok o)
  unfolding val_of value alive val_addr
  val_of-ok blank true st e back = cc
  val_of-ok (staged p) false st e back = cc
  val_of-ok blank false st e back = (none, refl)
  val_of-ok (staged p) true st e back = elim (Option-cases (cell p st)) [
    | inl dead ↦ absurd (ground (arith, back p))
    | inr (v, at) ↦ (some v, rw at)
  ]

  -- Every entry's object is alive, so a read of the log is never undefined.
  pub staged_value-ok :
      (a : ℕ) (ls : List Location) (st : Store V)
      → IsBacked ls st
      → (o : Option V) × (staged_value a ls st ≡ ok o)
  unfolding staged_value owners
  staged_value-ok a [] st back = (none, refl)
  staged_value-ok a (l ∷ ls) st back = elim (Bool-cases (l.addr == a)) [
    | inl hit ↦
        let (o, e) =
          val_of-ok l.write_val l.was_written st back.entries.0
            (λ p. omega (arith, back.backed p)) in
        (o, rw hit e)
    | inr miss ↦ let (o, e) = staged_value-ok a ls st (tail-IsBacked l ls st back) in (o, rw miss e)
  ]
