-- ===== src/Location.antt =====
-- tl2/op.h, `WriteVal` and `Location`: what a transaction notes of one address.
-- One type `V` stands for the types that the program keeps in its `TVar`s. `me` is
-- `std::this_thread::get_id()`; `none` is the owner `std::thread::id()`.
use tl2_cpp.Common.{ℕ, Bool, true, false, Option, none, some, ◌==◌, if◌then◌else◌, update}
use tl2_cpp.Common.Res.{Res, ok, round, ◌>>=◌}
use tl2_cpp.VersionLock
use tl2_cpp.VersionLock.{quiet}
use tl2_cpp.LockTable.{LockTable, index}
use tl2_cpp.Store.{Store, construct, value, assign, destroy}

-- `blank` is the default value, whose destructor and move do nothing.
pub data WriteVal : Type 0 where
  blank : WriteVal
  staged : ℕ → WriteVal

unfoldable pub val_addr : WriteVal → ℕ
val_addr blank = 0
val_addr (staged p) = p

pub record Location : Type 0 where
  pub write_val : WriteVal
  pub addr : ℕ
  pub rv : ℕ
  pub was_read : Bool
  pub was_written : Bool
  pub owner : Option ℕ

-- `Location(addr)`
unfoldable pub new_location : ℕ → Location
new_location a = record {
  write_val = blank;
  addr = a;
  rv = 0;
  was_read = false;
  was_written = false;
  owner = none;
}

unfoldable pub is_me : ℕ → Option ℕ → Bool
is_me me none = false
is_me me (some t) = t == me

unfoldable pub lock_ptr : Location → ℕ
lock_ptr loc = index loc.addr

unfoldable pub mark_owner : ℕ → Location → Location
mark_owner me loc = record loc { owner = some me }

unfoldable pub get_version : ℕ → LockTable → Location → Res ℕ
unfolding is_me lock_ptr
get_version me locks loc =
    if is_me me loc.owner
    then ok (VersionLock.unsafe_get_version (locks (lock_ptr loc)))
    else round (VersionLock.get_version (locks (lock_ptr loc)))

unfoldable pub set_version : ℕ → ℕ → LockTable → Location → Res LockTable
unfolding is_me lock_ptr
set_version me v locks loc =
    if is_me me loc.owner
    then ok (update locks (lock_ptr loc) (VersionLock.unsafe_set_version v (locks (lock_ptr loc))))
    else (do
      s ← round (VersionLock.set_version v (quiet (locks (lock_ptr loc))))
      ok (update locks (lock_ptr loc) s))

-- `false` if this thread holds the lock already.
unfoldable pub lock : ℕ → LockTable → Location → Res (Bool × Location × LockTable)
unfolding is_me lock_ptr mark_owner
lock me locks loc = if is_me me loc.owner then ok (false, loc, locks) else (do
  s ← round (VersionLock.lock (quiet (locks (lock_ptr loc))))
  ok (true, mark_owner me loc, update locks (lock_ptr loc) s))

unfoldable pub unlock : LockTable → Location → Location × LockTable
unfolding lock_ptr
unlock locks loc = (
  record loc { owner = none },
  update locks (lock_ptr loc) (VersionLock.unlock (locks (lock_ptr loc))),
)

unfoldable pub read : ℕ → LockTable → Location → Res Location
unfolding get_version
read me locks loc = do v ← get_version me locks loc; ok (record loc { was_read = true; rv = v })

-- `Location(addr, read)`
unfoldable pub new_read : ℕ → LockTable → ℕ → Bool → Res Location
new_read me locks a reading =
    if reading then read me locks (new_location a) else ok (new_location a)

module _ {V : Type 0} where
  unfoldable pub write : V → Store V → Location → Res (Location × Store V)
  unfolding val_addr
  write v st loc =
      if loc.was_written
      then (do st' ← assign (val_addr loc.write_val) v st; ok (loc, st'))
      else (do
        let (p, st') = construct v st
        ok (record loc { write_val = staged p; was_written = true }, st'))

  -- `Location(addr, write_val, store)`
  unfoldable pub new_write : ℕ → V → Store V → Res (Location × Store V)
  new_write a v st = write v st (new_location a)

  -- `m_destructor(m_val)`
  unfoldable pub free_heap : WriteVal → Store V → Res (Store V)
  free_heap blank st = ok st
  free_heap (staged p) st = destroy p st

  -- `m_move(m_val, dest)`, over the memory that the `TVar`s live in. The staged object is read as
  -- it is; what the move leaves in it is never read.
  move_val : WriteVal → ℕ → Store V → (ℕ → V) → Res (ℕ → V)
  move_val blank dest st mem = ok mem
  move_val (staged p) dest st mem = do v ← value p st; ok (update mem dest v)

  unfoldable pub move : Store V → (ℕ → V) → Location → Res (ℕ → V)
  unfolding move_val
  move st mem loc = move_val loc.write_val loc.addr st mem
