-- ===== src/TVar/Alone.antt =====
-- The accesses of tl2/t_var.h while no lock is held.
use tl2_cpp.Common.{
  ℕ, ◌+◌, ◌≡◌, ◌==◌, ◌||◌, refl, sym, ◌∙◌, ap, fun_ext, Bool, true, false, Option, none, some,
  arith, update,
}
use tl2_cpp.Common.Res.{Res, ok, spins, fault}
use tl2_cpp.VersionLock
use tl2_cpp.VersionLock.{is_locked, quiet}
use tl2_cpp.VersionLock.Pack.{lock-quiet, unlock-add_one}
use tl2_cpp.LockTable.{LockTable, index}
use tl2_cpp.Log.Values.{IsLog, values, append_read-values, append_write-values, value_at-values}
use tl2_cpp.Manager.{World, done, running, assert_in_transaction}
use tl2_cpp.LocationSet.Vendored.{AddrMap}
use tl2_cpp.LocationSet.Entries.{has_read}
use tl2_cpp.LocationSet.Entries.Owned.{deref}
use tl2_cpp.TVar.{note_read, read_data, read_staged, load, store}

-- No lock of the table is held.
abbrev pub IsFree : LockTable → Type 0
IsFree locks = (i : ℕ) → is_locked (locks i) ≡ false

-- The staged value if there is one, and else the data.
abbrev pub seen {ℓ} : {V : Type ℓ} → Res (Option V) → V → V
seen (ok (some v)) d = v
seen (ok none) d = d
seen spins d = d
seen fault d = d

-- A lock that is taken and given back leaves the table as it was.
relock :
    (f : LockTable) (i : ℕ)
    → is_locked (f i) ≡ false
    → update (update f i (f i + 1)) i (VersionLock.unlock (update f i (f i + 1) i)) ≡ f
relock f i h = fun_ext λ j. ground (arith, unlock-add_one (f i))

module _ {m : AddrMap} {V : Type 0} where
  pub record IsRunning (w : World m V) : Type 0 where
    pub state : w.manager.state ≡ running
    pub log : IsLog m w.manager.log
    pub free : IsFree w.shared.locks

  -- What a transaction sees at an address over some data: its own last write, or the data.
  abbrev pub over : World m V → (ℕ → V) → ℕ → V
  over w mem a = seen (values m w.manager.log a) (mem a)

  -- What it sees over the data as it is.
  abbrev pub view : World m V → ℕ → V
  view w = over w w.shared.mem

  -- Whether the read set has an address.
  abbrev pub is_read : World m V → ℕ → Bool
  is_read w a = has_read a w.manager.log.l.vec

  -- The later world differs only in the log.
  pub record Kept (w w' : World m V) : Type 0 where
    pub shared : w'.shared ≡ w.shared
    pub me : w'.manager.me ≡ w.manager.me
    pub rv : w'.manager.rv ≡ w.manager.rv

  assert-running : (w : World m V) → w.manager.state ≡ running → assert_in_transaction w ≡ done tt w
  unfolding assert_in_transaction
  assert-running w h = rw h

  -- The slow path of a read takes the lock and gives it back: the table is as before.
  read_data-free :
      (trivial : Bool) (a : ℕ) (w : World m V)
      → IsFree w.shared.locks
      → read_data trivial a w ≡ done (w.shared.mem a) w
  unfolding read_data
  read_data-free true a w free = refl
  read_data-free false a w free = rw (lock-quiet (w.shared.locks (index a)) (free (index a))) (
      ap (λ f. done (w.shared.mem a) (record w { shared = record (w.shared) { locks = f } }))
        (relock w.shared.locks (index a) (free (index a))))

  -- What a read returns, from what the log has for the address.
  read_staged-seen :
      (trivial : Bool) (a : ℕ) (w : World m V) (entry : Option ℕ)
      → IsFree w.shared.locks
      → (o : Option V) → deref entry w.manager.log.store ≡ ok o
      → read_staged trivial a entry w ≡ done (seen (ok o) (w.shared.mem a)) w
  unfolding read_staged
  read_staged-seen trivial a w none free none h = read_data-free trivial a w free
  read_staged-seen trivial a w none free (some v) h = cc
  read_staged-seen trivial a w (some p) free o h = ground arith

  -- Inside a transaction, with a well-formed log and no lock held, a read returns the last value
  -- that the transaction wrote to the variable, or the data if it wrote none. It changes nothing
  -- but the read set, which gains the variable: whatever the data, the transaction sees the same
  -- over it as before.
  pub load-view :
      (trivial : Bool) (a : ℕ) (w : World m V)
      → IsRunning w
      → (w' : World m V) × (load trivial a w ≡ done (view w a) w')
        × IsRunning w'
        × Kept w w'
        × ((mem : ℕ → V) (b : ℕ) → over w' mem b ≡ over w mem b)
        × ((b : ℕ) → is_read w' b ≡ (a == b) || is_read w b)
  unfolding load note_read
  load-view trivial a w r =
      let (log', e, h, same, reads) =
        append_read-values m w.manager.me w.shared.locks a w.manager.log r.log (r.free (index a)) in
      let w' : World m V = record w { manager = record (w.manager) { log = log' } } in
      let (p, o, at, got, val) = value_at-values m a log' h in
      (
        w',
        rw (assert-running w r.state, e, at)
            (read_staged-seen trivial a w' p r.free o got
              ∙ ap (λ x. done (seen x (w.shared.mem a)) w') (sym val ∙ same a)),
        record { state = r.state; log = h; free = r.free },
        record { shared = refl; me = refl; rv = refl },
        λ mem b. ap (λ x. seen x (mem b)) (same b),
        reads,
      )

  -- Inside a transaction, with a well-formed log and no lock held, a write succeeds; the transaction
  -- then sees its value at the variable, and what it saw before everywhere else, whatever the data.
  -- The data and the read set are as before.
  pub store-view :
      (a : ℕ) (v : V) (w : World m V)
      → IsRunning w
      → (w' : World m V) × (store a v w ≡ done tt w')
        × IsRunning w'
        × Kept w w'
        × ((mem : ℕ → V) (b : ℕ) → over w' mem b ≡ update (over w mem) a v b)
        × ((b : ℕ) → is_read w' b ≡ is_read w b)
  unfolding store
  store-view a v w r =
      let (log', e, h, vals, reads) = append_write-values m a v w.manager.log r.log in
      (
        record w { manager = record (w.manager) { log = log' } },
        rw (assert-running w r.state, e),
        record { state = r.state; log = h; free = r.free },
        record { shared = refl; me = refl; rv = refl },
        λ mem b. ground (arith, vals b),
        reads,
      )
