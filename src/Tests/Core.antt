-- ===== src/Tests/Core.antt =====
-- The theorems on transactions at concrete inputs, and a whole run of `atomically`.
use tl2_cpp.Common.{
  ℕ, zero, suc, update, ◌==◌, ◌||◌, ◌+◌, ◌≡◌, refl, true, false, Option, none, some, List, [], ◌∷◌,
  arith,
}
use tl2_cpp.Common.Res.{ok}
use tl2_cpp.VersionLock
use tl2_cpp.LockTable
use tl2_cpp.Policy
use tl2_cpp.Location
use tl2_cpp.LockGuard
use tl2_cpp.Stm
use tl2_cpp.Tx
use tl2_cpp.Atomic
use tl2_cpp.Manager
use tl2_cpp.Location.{WriteVal}
use tl2_cpp.Store
use tl2_cpp.Store.{Store, alive}
use tl2_cpp.Policy.{free_all}
use tl2_cpp.Policy.Free.{free_all-alive}
use tl2_cpp.Location.{Location, new_location, staged}
use tl2_cpp.LocationSet.Entries.Owned.{IsBacked, owners, staged_value}
use tl2_cpp.LocationSet.Entries.{index_of}
use tl2_cpp.LocationSet.Hash
use tl2_cpp.Log
use tl2_cpp.Log.Values.{clear-new, IsLog, new-IsLog}
use tl2_cpp.Manager.{
  Shared, Manager, World, Outcome, done, thrown, foreign, invalid_access, State, running, zombie,
  in_transaction,
}
use tl2_cpp.TVar
use tl2_cpp.TVar.Outside.{outside-throws}
use tl2_cpp.TVar.Alone.{IsRunning, Kept, over, view, is_read, load-view, store-view}
use tl2_cpp.Atomic.Escaped.{Unwritten, atomically-Unwritten}
use tl2_cpp.Tx.{Tx, ret, load, store, raise, exec, run}
use tl2_cpp.Tx.Runs.{Runs, run-exec}
use tl2_cpp.Stm.{try_commit}
use tl2_cpp.Stm.TryCommit.{Tried, next_version, try_commit-Tried, vec}
use tl2_cpp.Stm.Commit.{decides}
use tl2_cpp.Atomic.{Arg, atomically}
use tl2_cpp.Atomic.Alone.{Ends, IsSound, IsOpen, atomically-exec, quiet_env}
use tl2_cpp.Tests.Concrete.{assoc, insertion}

unfoldable pub program : Unit {0}
unfolding Atomic.atomically Atomic.attempts Atomic.start Atomic.finish Atomic.interfere
    Atomic.handle Atomic.restore_arg Atomic.restore_args Stm.try_commit Stm.commit Stm.commit_locked
    Stm.validate LockGuard.acquire LockGuard.release LockGuard.unlock_at Manager.start_transaction
    Manager.end_transaction Manager.in_transaction Manager.assert_in_transaction TVar.load
    TVar.store TVar.note_read TVar.read_staged TVar.read_data Log.new Log.value_at Log.append_read
    Log.append_write Log.clear Hash.new Hash.register_write Hash.register_read Hash.find_write
    Hash.clear Hash.stable_sort Policy.clear Policy.free_all Location.new_location Location.new_read
    Location.new_write Location.read Location.write Location.get_version Location.set_version
    Location.lock Location.unlock Location.free_heap Location.move Location.mark_owner
    Location.lock_ptr Location.is_me Location.val_addr Store.construct Store.value Store.assign
    Store.destroy Store.release Store.cell VersionLock.pack VersionLock.get_version
    VersionLock.set_version VersionLock.unsafe_get_version VersionLock.unsafe_set_version
    VersionLock.incr_version VersionLock.lock VersionLock.unlock VersionLock.unpack_version
    LockTable.index Tx.run
program = tt

-- Five in every variable, all locks free at version 0, the clock at version 3.
abbrev pub shared₀ : Shared ℕ
shared₀ = record { clock = 6; locks = λ _. 0; mem = λ _. 5 }

-- Thread 1, outside or inside a transaction.
abbrev pub world : State → World assoc ℕ
world s = record {
  shared = shared₀;
  manager = record { me = 1; state = s; rv = 3; log = Log.new assoc };
}

-- The buffer after one write.
abbrev pub one_cell : Store ℕ
one_cell = some 7 ∷ []

-- Variable 4, read and written once.
abbrev pub one_entry : List Location
one_entry =
    record {
      write_val = staged 0;
      addr = 4;
      rv = 0;
      was_read = true;
      was_written = true;
      owner = none;
    }
    ∷ []

-- Two variables, one of them read, raised and read again.
abbrev raise_twice : List (Arg ℕ) → Tx ℕ (ℕ × List (Arg ℕ))
raise_twice args = load 4 λ v. store 4 (v + 1) (load 4 λ u. store 8 (u + u) (ret (u, args)))

pub empty-IsSound : (s : State) → IsSound (world s)
unfolding Log.new Hash.new owners
empty-IsSound s = record { entries = tt; backed = λ p. omega arith }

pub open₀ : IsOpen shared₀
open₀ = record { free = λ i. refl; clock = refl }

running₀ : IsRunning (world running)
running₀ = record { state = refl; log = new-IsLog assoc; free = λ i. refl }

-- The world after variable 4 has been written, as the log has it.
abbrev written : World assoc ℕ
written = record {
  shared = shared₀;
  manager = record {
    me = 1;
    state = running;
    rv = 3;
    log = record { l = record { vec = one_entry; map = (4, 0) ∷ [] }; store = one_cell };
  };
}

owners-one : (p : ℕ) → owners p one_entry ≡ alive p one_cell
unfolding owners alive Store.cell
owners-one zero = refl
owners-one (suc p) = ground arith

pub one_entry-IsBacked : IsBacked one_entry one_cell
one_entry-IsBacked = record { entries = (refl, tt); backed = λ p. omega (arith, owners-one p) }

written-IsLog : IsLog assoc (written.manager.log)
unfolding index_of
written-IsLog = record {
  indexed = λ a. ground arith;
  entries = (refl, tt);
  exact = owners-one;
  distinct = (refl, tt);
  unowned = (refl, tt);
}

atomically-exec_example :
    Ends insertion false raise_twice (exec (raise_twice []) (λ _. 5)) 1 [] (world zombie)
unfolding in_transaction
atomically-exec_example =
    atomically-exec insertion false raise_twice 0 [] (world zombie) refl (empty-IsSound zombie)
      open₀ (omega arith)

-- A write, and an exception that is no `std::exception`.
abbrev write_and_throw : List (Arg ℕ) → Tx ℕ (ℕ × List (Arg ℕ))
write_and_throw args = store 4 9 (raise foreign)

atomically-Unwritten_example :
    (w₁ : World assoc ℕ) × (atomically insertion false write_and_throw quiet_env 1 [] (world zombie)
      ≡ thrown foreign w₁)
    × Unwritten shared₀ (atomically insertion false raise_twice quiet_env 3 [] w₁)
unfolding in_transaction exec
atomically-Unwritten_example =
    atomically-Unwritten insertion false write_and_throw raise_twice 0 3 [] [] (world zombie) refl
      (empty-IsSound zombie) open₀ (omega arith) refl

run-exec_example : Runs true (raise_twice []) (world running) (exec (raise_twice []) (λ _. 5))
unfolding staged_value Log.new Hash.new
run-exec_example = run-exec true (raise_twice []) (world running) (λ _. 5) running₀ (λ b. refl)

load-view_example :
    (w' : World assoc ℕ) × (TVar.load true 4 (world running) ≡ done (view (world running) 4) w')
    × IsRunning w'
    × Kept (world running) w'
    × ((mem : ℕ → ℕ) (b : ℕ) → over w' mem b ≡ over (world running) mem b)
    × ((b : ℕ) → is_read w' b ≡ (4 == b) || is_read (world running) b)
load-view_example = load-view true 4 (world running) running₀

store-view_example :
    (w' : World assoc ℕ) × (TVar.store 4 9 (world running) ≡ done tt w')
    × IsRunning w'
    × Kept (world running) w'
    × ((mem : ℕ → ℕ) (b : ℕ) → over w' mem b ≡ update (over (world running) mem) 4 9 b)
    × ((b : ℕ) → is_read w' b ≡ is_read (world running) b)
store-view_example = store-view 4 9 (world running) running₀

try_commit-Tried_example :
    (w' : World assoc ℕ) × (try_commit insertion written
      ≡ ok (decides 3 (next_version written) (λ _. 0) (vec written), w'))
    × Tried (decides 3 (next_version written) (λ _. 0) (vec written)) written w'
try_commit-Tried_example = try_commit-Tried insertion written written-IsLog (λ i. refl)

free_all-alive_example :
    (st' : Store ℕ) × (free_all one_entry one_cell ≡ ok st')
    × ((p : ℕ) → alive p st' + owners p one_entry ≡ alive p one_cell)
free_all-alive_example = free_all-alive one_entry one_cell one_entry-IsBacked

clear-new_example : Log.clear assoc (written.manager.log) ≡ ok (Log.new assoc)
clear-new_example = clear-new assoc (written.manager.log) one_entry-IsBacked

-- What a run of `atomically` leaves: its result, two variables, their locks, and the clock.
abbrev answer : Outcome (World assoc ℕ) (ℕ × List (Arg ℕ)) → Option (ℕ × ℕ × ℕ × ℕ × ℕ × ℕ)
answer (done (r, _) w) =
    some (r, w.shared.mem 4, w.shared.mem 8, w.shared.locks 1, w.shared.locks 3, w.shared.clock)
answer _ = none

atomically_run :
    answer (atomically insertion false raise_twice quiet_env 1 [] (world zombie))
    ≡ some (6, 6, 12, 8, 0, 8)
unfolding program
atomically_run = refl

no_cells-IsBacked : IsBacked (world zombie).manager.log.l.vec (world zombie).manager.log.store
unfolding owners Log.new Hash.new
no_cells-IsBacked = record { entries = tt; backed = λ p. omega arith }

outside-throws_example :
    (w' : World assoc ℕ) × (TVar.load false 4 (world zombie) ≡ thrown invalid_access w')
    × (TVar.store 4 9 (world zombie) ≡ thrown invalid_access w')
    × (TVar.copy false 8 4 (world zombie) ≡ thrown invalid_access w')
    × (w'.shared ≡ (world zombie).shared)
    × (w'.manager.log ≡ Log.new assoc)
    × (in_transaction w'.manager ≡ false)
unfolding in_transaction
outside-throws_example = outside-throws false 4 8 9 (world zombie) refl no_cells-IsBacked refl
