-- ===== src/Threads.antt =====
-- Several threads that run transactions at the same time, a shared access at a time: the accesses of
-- tl2/t_var.h, tl2/state.h, tl2/lock_guard.h, tl2/stm.h and tl2/op.h in the order in which a thread
-- makes them. The memory is sequentially consistent, the data trivial, and versions wrap at 2 ^ 63.
-- A wait for a lock is a move that is not there while the lock is held.
pub mod Ghost
pub mod Stable
pub mod Reads
pub mod Locks
pub mod Held
pub mod Clock
pub mod Decide
pub mod Writes
pub mod Moves
pub mod Serial
pub mod Counter
pub mod Order
pub mod Progress
use tl2_cpp.Common.{
  ℕ, ◌+◌, ◌%◌, ◌^◌, ◌≤◌, ◌<◌, ◌≡◌, ◌≢◌, Bool, true, false, Option, none, some, List, [], ◌∷◌, ◌++◌,
  ◌==◌, contains, if◌then◌else◌, update,
}
use tl2_cpp.LockTable.{index}
use tl2_cpp.Manager.{Exception, foreign}
use tl2_cpp.Tx.{Tx, ret, load, store, raise}

-- The clock; of each lock its version, and the thread that holds it; and the data.
pub record Memory (V : Type 0) : Type 0 where
  pub clock : ℕ
  pub ver : ℕ → ℕ
  pub owner : ℕ → Option ℕ
  pub mem : ℕ → V

-- The log of a thread: the addresses of its locations, which of them are read, and the staged values.
pub record Log (V : Type 0) : Type 0 where
  pub locs : List ℕ
  pub was_read : ℕ → Bool
  pub staged : ℕ → Option V

abbrev pub logged : {V : Type 0} → ℕ → Log V → Log V
logged a l = record l { locs = if contains a l.locs then l.locs else l.locs ++ a ∷ [] }

abbrev pub append_read : {V : Type 0} → ℕ → Log V → Log V
append_read a l = record (logged a l) { was_read = update l.was_read a true }

abbrev pub append_write : {V : Type 0} → ℕ → V → Log V → Log V
append_write a v l = record (logged a l) { staged = update l.staged a (some v) }

abbrev pub no_log : {V : Type 0} → Log V
no_log = record { locs = []; was_read = λ a. false; staged = λ a. none }

-- A transaction that is under way: the lambda, the version of its start, and the log.
pub record Txn (V A : Type 0) : Type 0 where
  pub body : Tx V A
  pub rv : ℕ
  pub log : Log V

-- Where a thread stands, with what is live there. `held` are the locks that it has taken, the last
-- one first, and `todo` the locations that a loop has left.
pub data Pc (V A : Type 0) : Type 0 where
  idle : Pc V A
  -- In a transaction that an exception has left which is no `std::exception`. Its log never commits;
  -- what the thread does from there on is not modelled.
  lost : Pc V A
  running : Txn V A → (rest : Tx V A) → Pc V A
  fetching : Txn V A → (a : ℕ) → (V → Tx V A) → Pc V A
  locking : Txn V A → A → (todo held : List ℕ) → Pc V A
  validating : Txn V A → (wv : ℕ) → A → (todo held : List ℕ) → Pc V A
  writing : Txn V A → (wv : ℕ) → (todo held : List ℕ) → Pc V A
  moving : Txn V A → (wv a : ℕ) → V → (todo held : List ℕ) → Pc V A
  releasing : (held : List ℕ) → Pc V A

-- The addresses ascend, and are above `b`.
abbrev pub Above : ℕ → List ℕ → Type 0
Above b [] = Unit
Above b (a ∷ xs) = (b < a) × Above a xs

abbrev pub Ascending : List ℕ → Type 0
Ascending [] = Unit
Ascending (a ∷ xs) = Above a xs

module _ {V A : Type 0} where
  -- One move of the thread `i`. It may tell that a transaction has committed: its body and result.
  pub data Move (i : ℕ) (m : Memory V)
      : Pc V A → Option (Tx V A × A) → Memory V → Pc V A → Type 0 where
    -- `start_transaction`, for the first time or again.
    start :
        {t : Tx V A}
        → Move i m idle none m (running (record { body = t; rv = m.clock; log = no_log }) t)
    -- A read: `append_read`, which waits until the lock is free; then the staged value or the data.
    note :
        {x : Txn V A} {a : ℕ} {f : V → Tx V A}
        → m.owner (index a) ≡ none
        → Move i m
            (running x (load a f))
            none
            m
            (fetching (record x { log = append_read a x.log }) a f)
    own :
        {x : Txn V A} {a : ℕ} {f : V → Tx V A} {v : V}
        → x.log.staged a ≡ some v
        → Move i m (fetching x a f) none m (running x (f v))
    fetch :
        {x : Txn V A} {a : ℕ} {f : V → Tx V A}
        → x.log.staged a ≡ none
        → Move i m (fetching x a f) none m (running x (f (m.mem a)))
    -- A write.
    put :
        {x : Txn V A} {a : ℕ} {v : V} {t : Tx V A}
        → Move i m
            (running x (store a v t))
            none
            m
            (running (record x { log = append_write a v x.log }) t)
    -- A `std::exception` ends the transaction; another exception does not.
    throws :
        {x : Txn V A} {e : Exception} → e ≢ foreign → Move i m (running x (raise e)) none m idle
    escapes : {x : Txn V A} → Move i m (running x (raise foreign)) none m lost
    -- The lambda returns, and the locations are sorted.
    sort :
        {x : Txn V A} {r : A} {todo : List ℕ}
        → Ascending todo
        → ((a : ℕ) → contains a todo ≡ contains a x.log.locs)
        → Move i m
            (running x (ret r))
            none
            m
            (locking (record x { log = record x.log { locs = todo } }) r todo [])
    -- The lock of a location is one of those taken, or is taken now.
    owned :
        {x : Txn V A} {r : A} {a : ℕ} {todo held : List ℕ}
        → contains (index a) held ≡ true
        → Move i m (locking x r (a ∷ todo) held) none m (locking x r todo held)
    take :
        {x : Txn V A} {r : A} {a : ℕ} {todo held : List ℕ}
        → contains (index a) held ≡ false
        → m.owner (index a) ≡ none
        → Move i m
            (locking x r (a ∷ todo) held)
            none
            (record m { owner = update m.owner (index a) (some i) })
            (locking x r todo (index a ∷ held))
    -- The clock is raised. Where it is then one above the start, nothing is left to validate.
    incr_next :
        {x : Txn V A} {r : A} {held : List ℕ}
        → (m.clock + 1) % 2 ^ 63 ≡ x.rv + 1
        → Move i m
            (locking x r [] held)
            none
            (record m { clock = (m.clock + 1) % 2 ^ 63 })
            (validating x ((m.clock + 1) % 2 ^ 63) r [] held)
    incr_later :
        {x : Txn V A} {r : A} {held : List ℕ}
        → (m.clock + 1) % 2 ^ 63 ≢ x.rv + 1
        → Move i m
            (locking x r [] held)
            none
            (record m { clock = (m.clock + 1) % 2 ^ 63 })
            (validating x ((m.clock + 1) % 2 ^ 63) r x.log.locs held)
    -- A round of the validation.
    unread :
        {x : Txn V A} {wv : ℕ} {r : A} {a : ℕ} {todo held : List ℕ}
        → x.log.was_read a ≡ false
        → Move i m (validating x wv r (a ∷ todo) held) none m (validating x wv r todo held)
    valid :
        {x : Txn V A} {wv : ℕ} {r : A} {a : ℕ} {todo held : List ℕ}
        → x.log.was_read a ≡ true
        → m.ver (index a) ≤ x.rv
        → Move i m (validating x wv r (a ∷ todo) held) none m (validating x wv r todo held)
    stale :
        {x : Txn V A} {wv : ℕ} {r : A} {a : ℕ} {todo held : List ℕ}
        → x.log.was_read a ≡ true
        → x.rv < m.ver (index a)
        → Move i m (validating x wv r (a ∷ todo) held) none m (releasing held)
    validated :
        {x : Txn V A} {wv : ℕ} {r : A} {held : List ℕ}
        → Move i m (validating x wv r [] held) (some (x.body, r)) m (writing x wv x.log.locs held)
    -- A round of `commit`: the version, then the data.
    unwritten :
        {x : Txn V A} {wv a : ℕ} {todo held : List ℕ}
        → x.log.staged a ≡ none
        → Move i m (writing x wv (a ∷ todo) held) none m (writing x wv todo held)
    set_version :
        {x : Txn V A} {wv a : ℕ} {v : V} {todo held : List ℕ}
        → x.log.staged a ≡ some v
        → Move i m
            (writing x wv (a ∷ todo) held)
            none
            (record m { ver = update m.ver (index a) wv })
            (moving x wv a v todo held)
    move :
        {x : Txn V A} {wv a : ℕ} {v : V} {todo held : List ℕ}
        → Move i m
            (moving x wv a v todo held)
            none
            (record m { mem = update m.mem a v })
            (writing x wv todo held)
    written :
        {x : Txn V A} {wv : ℕ} {held : List ℕ}
        → Move i m (writing x wv [] held) none m (releasing held)
    -- The locks are given back, the last one first.
    release :
        {s : ℕ} {held : List ℕ}
        → Move i m
            (releasing (s ∷ held))
            none
            (record m { owner = update m.owner s none })
            (releasing held)
    leave : Move i m (releasing []) none m idle

-- All threads over one memory.
pub record System (V A : Type 0) : Type 0 where
  pub shared : Memory V
  pub pc : ℕ → Pc V A

module _ {V A : Type 0} where
  pub data Step (s : System V A) : Option (Tx V A × A) → System V A → Type 0 where
    pick :
        (i : ℕ) {e : Option (Tx V A × A)} {m : Memory V} {p : Pc V A}
        → Move i s.shared (s.pc i) e m p
        → Step s e (record { shared = m; pc = update s.pc i p })

  abbrev pub told : Option (Tx V A × A) → List (Tx V A × A)
  told none = []
  told (some e) = e ∷ []

  -- A run, with the transactions that have committed, in the order in which they did.
  pub data Run (s : System V A) : List (Tx V A × A) → System V A → Type 0 where
    begun : Run s [] s
    later :
        {es : List (Tx V A × A)} {e : Option (Tx V A × A)} {s₁ s₂ : System V A}
        → Run s es s₁
        → Step s₁ e s₂
        → Run s (es ++ told e) s₂
