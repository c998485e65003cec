-- ===== src/TVar.antt =====
-- tl2/t_var.h, `TVar<T>`: reads and writes of a variable inside a transaction.
-- A variable is the address of its `m_data`; `trivial` is `std::is_trivial_v<T>`.
pub mod Alone
pub mod Outside
use tl2_cpp.Common.{ℕ, Bool, true, false, Option, none, some, ◌==◌, if◌then◌else◌, update}
use tl2_cpp.Common.Res.{Res, round}
use tl2_cpp.VersionLock
use tl2_cpp.VersionLock.{quiet}
use tl2_cpp.LockTable.{index}
use tl2_cpp.Store
use tl2_cpp.Log
use tl2_cpp.Manager.{
  Shared, World, Outcome, done, ◌>>=◌, ◌>>◌, pure, get, put, lift, assert_in_transaction,
}
use tl2_cpp.LocationSet.Vendored.{AddrMap}

module _ {m : AddrMap} {V : Type 0} where
  -- `mutex.lock()`, on the lock of an address.
  unfoldable pub lock_of : ℕ → World m V → Outcome (World m V) (Unit {0})
  lock_of a = do
    w ← get
    s ← lift (round (VersionLock.lock (quiet (w.shared.locks (index a)))))
    put (record w { shared = record (w.shared) { locks = update w.shared.locks (index a) s } })

  -- `mutex.unlock()`
  unfoldable pub unlock_of : ℕ → World m V → Outcome (World m V) (Unit {0})
  unlock_of a = do
    w ← get
    let s = VersionLock.unlock (w.shared.locks (index a))
    put (record w { shared = record (w.shared) { locks = update w.shared.locks (index a) s } })

  -- `unsafe_get`
  unfoldable pub unsafe_get : ℕ → World m V → Outcome (World m V) V
  unsafe_get a w = done (w.shared.mem a) w

  -- `log.append_read(&m_data)`
  unfoldable pub note_read : ℕ → World m V → Outcome (World m V) (Unit {0})
  note_read a = do
    w ← get
    log ← lift (Log.append_read m w.manager.me w.shared.locks a w.manager.log)
    put (record w { manager = record (w.manager) { log = log } })

  -- The data itself: at once for a trivial type, and otherwise under the lock.
  unfoldable pub read_data : Bool → ℕ → World m V → Outcome (World m V) V
  unfolding unsafe_get lock_of unlock_of
  read_data true a = unsafe_get a
  read_data false a = do lock_of a; v ← unsafe_get a; unlock_of a; pure v

  -- The staged value, if the log has one, and else the data.
  unfoldable pub read_staged : Bool → ℕ → Option ℕ → World m V → Outcome (World m V) V
  read_staged trivial a (some p) = λ w. lift (Store.value p w.manager.log.store) w
  read_staged trivial a none = read_data trivial a

  -- `operator T()`
  unfoldable pub load : Bool → ℕ → World m V → Outcome (World m V) V
  load trivial a = do
    assert_in_transaction
    note_read a
    w ← get
    entry ← lift (Log.value_at m a w.manager.log)
    read_staged trivial a entry

  -- `operator=(T val)`
  unfoldable pub store : ℕ → V → World m V → Outcome (World m V) (Unit {0})
  store a v = do
    assert_in_transaction
    w ← get
    log ← lift (Log.append_write m a v w.manager.log)
    put (record w { manager = record (w.manager) { log = log } })

  -- `operator=(const TVar<T> &other)`: the other variable first, then this one.
  unfoldable pub copy : Bool → (other this : ℕ) → World m V → Outcome (World m V) (Unit {0})
  copy trivial other this =
      if other == this then pure tt else (do v ← load trivial other; store this v)
