-- ===== src/TVar/Outside.antt =====
-- A `TVar` that is used outside of a transaction.
use tl2_cpp.Common.{ℕ, ◌≡◌, refl, Bool, true, false, ◌==◌}
use tl2_cpp.Log
use tl2_cpp.LocationSet.Vendored.{AddrMap}
use tl2_cpp.LocationSet.Entries.Owned.{IsBacked}
use tl2_cpp.Log.Values.{clear-new}
use tl2_cpp.Manager.{
  World, thrown, invalid_access, in_transaction, end_transaction, assert_in_transaction, State,
  zombie, abort, running,
}
use tl2_cpp.TVar.{load, store, copy}

module _ {m : AddrMap} {V : Type 0} where
  abbrev emptied : World m V → World m V
  emptied w = record w { manager = record (w.manager) { state = zombie; rv = 0; log = Log.new m } }

  assert-outside :
      (st : State) (w : World m V)
      → w.manager.state ≡ st
      → in_transaction w.manager ≡ false
      → IsBacked w.manager.log.l.vec w.manager.log.store
      → assert_in_transaction w ≡ thrown invalid_access (emptied w)
  unfolding assert_in_transaction end_transaction in_transaction
  assert-outside running w e out back = let wrong : true ≡ false = rw e at out in absurd (cc)
  assert-outside zombie w e out back = rw (e, clear-new m w.manager.log back) refl
  assert-outside abort w e out back = rw (e, clear-new m w.manager.log back) refl

  -- Outside of a transaction, if each entry of the log owns a live object of its own: a read, a write
  -- and an assignment from another variable all throw `invalid_access`. The shared state is as
  -- before, the log is empty, and the thread is still outside of a transaction.
  pub outside-throws :
      (trivial : Bool) (a other : ℕ) (v : V) (w : World m V)
      → in_transaction w.manager ≡ false
      → IsBacked w.manager.log.l.vec w.manager.log.store
      → (other == a) ≡ false
      → (w' : World m V) × (load trivial a w ≡ thrown invalid_access w')
        × (store a v w ≡ thrown invalid_access w')
        × (copy trivial other a w ≡ thrown invalid_access w')
        × (w'.shared ≡ w.shared)
        × (w'.manager.log ≡ Log.new m)
        × (in_transaction w'.manager ≡ false)
  unfolding load store copy in_transaction
  outside-throws trivial a other v w out back ne =
      let done = assert-outside w.manager.state w refl out back in
      (emptied w, rw done refl, rw done refl, rw (ne, done) refl, refl, refl, refl)
