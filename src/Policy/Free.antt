-- ===== src/Policy/Free.antt =====
-- tl2/memory.h: `PerThreadPolicy::clear` and the staged objects.
use tl2_cpp.Common.{
  ℕ, ◌+◌, ◌≤◌, ◌≡◌, refl, Bool, true, false, none, List, [], ◌∷◌, ◌==◌, arith, if◌then◌else◌,
}
use tl2_cpp.Common.Res.{ok}
use tl2_cpp.Store
use tl2_cpp.Store.{Store, alive, cell, destroy}
use tl2_cpp.Store.Cells.{destroy-alive, alive-le_one}
use tl2_cpp.Location
use tl2_cpp.Location.{Location, WriteVal, blank, staged}
use tl2_cpp.Policy.{free_all, clear}
use tl2_cpp.LocationSet.Entries.Owned.{owns, owners, is_staged, IsBacked}

module _ {V : Type 0} where
  alive-destroyed :
      (p q : ℕ) (st st' : Store V)
      → alive p st ≡ 1
      → cell q st' ≡ (if p == q then none else cell q st)
      → alive q st' + (if p == q then 1 else 0) ≡ alive q st
  unfolding alive
  alive-destroyed p q st st' one h = ground arith

  pub free_one :
      (w : WriteVal) (b : Bool) (st : Store V)
      → is_staged w ≡ b
      → ((p : ℕ) → owns p w ≤ alive p st)
      → (st' : Store V) × ((if b then Location.free_heap w st else ok st) ≡ ok st')
        × ((p : ℕ) → alive p st' + owns p w ≡ alive p st)
  unfolding Location.free_heap
  free_one blank true st e back = cc
  free_one (staged q) false st e back = cc
  free_one blank false st e back = (st, refl, λ p. omega arith)
  free_one (staged q) true st e back =
      let one : alive q st ≡ 1 = ground (arith, back q, alive-le_one q st) in
      let (st', done, cells) = destroy-alive q st one in
      (st', done, λ p. alive-destroyed q p st st' one (cells p))

  -- If each entry's object is alive and owned once, the loop of `clear` destroys each object that an
  -- entry owns, and no other, and never touches a dead one.
  pub free_all-alive :
      (ls : List Location) (st : Store V)
      → IsBacked ls st
      → (st' : Store V) × (free_all ls st ≡ ok st')
        × ((p : ℕ) → alive p st' + owners p ls ≡ alive p st)
  unfolding free_all owners
  free_all-alive [] st back = (st, refl, λ p. omega arith)
  free_all-alive (l ∷ ls) st back =
      let (st₁, e₁, left₁) =
        free_one l.write_val l.was_written st back.entries.0 (λ p. omega (arith, back.backed p)) in
      let rest : IsBacked ls st₁ = record {
        entries = back.entries.1;
        backed = λ p. omega (arith, back.backed p, left₁ p);
      } in
      let (st', e, left) = free_all-alive ls st₁ rest in
      (st', rw e₁ e, λ p. omega (arith, left p, left₁ p))

  pub clear-ok : (ls : List Location) (st : Store V) → IsBacked ls st → clear ls st ≡ ok []
  unfolding clear Store.release
  clear-ok ls st back = let (st', e, left) = free_all-alive ls st back in rw e
