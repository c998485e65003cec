-- ===== src/Store/Cells.antt =====
-- The buffer of tl2/memory.h, one object at a time.
use tl2_cpp.Common.{
  ℕ, zero, suc, ◌≤◌, ◌≡◌, refl, Option, none, some, [], ◌∷◌, ◌==◌, arith, if◌then◌else◌, length,
  set, inl, inr, Option-cases,
}
use tl2_cpp.Common.Res.{ok}
use tl2_cpp.Store.{Store, construct, cell, alive, value, assign, destroy}

module _ {V : Type 0} where
  cell-cons : (p : ℕ) (c : Option V) (st : Store V) → cell (suc p) (c ∷ st) ≡ cell p st
  unfolding cell
  cell-cons p c st = refl

  -- A cell of the buffer after a new object is added at its end.
  pub cell-construct :
      (v : V) (st : Store V) (q : ℕ)
      → cell q (construct v st).1 ≡ (if length st == q then some v else cell q st)
  unfolding cell construct
  cell-construct v [] zero = refl
  cell-construct v [] (suc q) = ground arith
  cell-construct v (c ∷ st) zero = ground arith
  cell-construct v (c ∷ st) (suc q) = ground (arith, cell-construct v st q)

  cell-set :
      (st : Store V) (p q : ℕ) (c : Option V) {v : V}
      → cell p st ≡ some v
      → cell q (set st p c) ≡ (if p == q then c else cell q st)
  unfolding cell
  cell-set [] p q c h = cc
  cell-set (d ∷ st) zero zero c h = refl
  cell-set (d ∷ st) zero (suc q) c h = ground arith
  cell-set (d ∷ st) (suc p) zero c h = ground arith
  cell-set (d ∷ st) (suc p) (suc q) c h = ground (arith, cell-set st p q c h)

  -- A live object can be assigned, and only its cell changes.
  pub assign-alive :
      (p : ℕ) (v : V) (st : Store V)
      → alive p st ≡ 1
      → (st' : Store V) × (assign p v st ≡ ok st')
        × ((q : ℕ) → cell q st' ≡ (if p == q then some v else cell q st))
  unfolding assign value alive cell
  assign-alive p v st h = elim (Option-cases (cell p st)) [
    | inl dead ↦ absurd (ground arith)
    | inr (w, at) ↦ (set st p (some v), ground arith, λ q. cell-set st p q (some v) at)
  ]

  -- A live object can be destroyed, and only its cell changes.
  pub destroy-alive :
      (p : ℕ) (st : Store V)
      → alive p st ≡ 1
      → (st' : Store V) × (destroy p st ≡ ok st')
        × ((q : ℕ) → cell q st' ≡ (if p == q then none else cell q st))
  unfolding destroy value alive cell
  destroy-alive p st h = elim (Option-cases (cell p st)) [
    | inl dead ↦ absurd (ground arith)
    | inr (w, at) ↦ (set st p none, ground arith, λ q. cell-set st p q none at)
  ]

  pub cell-length : (st : Store V) → cell (length st) st ≡ none
  unfolding cell
  cell-length [] = refl
  cell-length (c ∷ st) = cell-length st

  pub alive-length : (st : Store V) → alive (length st) st ≡ 0
  unfolding alive
  alive-length st = rw (cell-length st, alive)

  pub alive-le_one : (p : ℕ) (st : Store V) → alive p st ≤ 1
  unfolding alive cell
  alive-le_one p st = ground arith
