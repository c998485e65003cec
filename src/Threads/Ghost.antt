-- ===== src/Threads/Ghost.antt =====
-- What is true of the threads at each moment. The ghost state says what the data are once all
-- transactions that have committed are written back, and how far each of them is.
use tl2_cpp.Common.{
  ℕ, ◌≤◌, ◌<◌, ◌≡◌, ◌≢◌, ◌⊎◌, Bool, true, false, Option, none, some, List, [], ◌∷◌, contains, All,
}
use tl2_cpp.LockTable.{index}
use tl2_cpp.Tx.{Tx, ret, load, exec}
use tl2_cpp.Threads.{
  Memory, Log, Txn, Pc, idle, lost, running, fetching, locking, validating, writing, moving,
  releasing,
}

-- `am` are the data with all committed writes. `stamp` is, of a lock, the version that its holder has
-- taken. A committed write is `due` until it is in the data, and `unset` until its version is set.
pub record Ghost (V : Type 0) : Type 0 where
  pub am : ℕ → V
  pub stamp : ℕ → Option ℕ
  pub due : ℕ → Bool
  pub unset : ℕ → Bool

abbrev pub or_else : {V : Type 0} → Option V → V → V
or_else none v = v
or_else (some w) v = w

-- What a transaction sees, over the data, with its staged values.
abbrev pub over : {V : Type 0} → (ℕ → Option V) → (ℕ → V) → ℕ → V
over staged mem a = or_else (staged a) (mem a)

abbrev pub Distinct : List ℕ → Type 0
Distinct [] = Unit
Distinct (s ∷ xs) = (contains s xs ≡ false) × Distinct xs

-- Each location is left, or its lock is taken.
abbrev pub Covered : (locs todo held : List ℕ) → Type 0
Covered locs todo held =
    (a : ℕ) → contains a locs ≡ true → (contains a todo ≡ true) ⊎ (contains (index a) held ≡ true)

module _ {V : Type 0} where
  pub record Global (m : Memory V) (g : Ghost V) : Type 0 where
    pub ver_clock : (s : ℕ) → m.ver s ≤ m.clock
    pub stamp_le : (s w : ℕ) → g.stamp s ≡ some w → (w ≤ m.clock) × (m.ver s ≤ w)
    pub free : (s : ℕ) → m.owner s ≡ none → g.stamp s ≡ none
    pub due_stamp :
        (a : ℕ)
        → g.due a ≡ true
        → (w : ℕ) × (g.stamp (index a) ≡ some w) × ((g.unset a ≡ true) ⊎ (w ≤ m.ver (index a)))
    pub moved : (a : ℕ) → g.due a ≡ false → m.mem a ≡ g.am a
    pub unset_due : (a : ℕ) → g.unset a ≡ true → g.due a ≡ true

  -- What the thread `i` leaves to the others.
  pub record Guar (i : ℕ) (m m' : Memory V) (g g' : Ghost V) : Type 0 where
    pub clock_le : m.clock ≤ m'.clock
    pub ver_le : (s : ℕ) → m.ver s ≤ m'.ver s
    pub owned : (j s : ℕ) → j ≢ i → m.owner s ≡ some j → m'.owner s ≡ some j
    pub not_given : (j s : ℕ) → j ≢ i → m'.owner s ≡ some j → m.owner s ≡ some j
    pub kept :
        (j s : ℕ) → j ≢ i → m.owner s ≡ some j → (g'.stamp s ≡ g.stamp s) × (m'.ver s ≡ m.ver s)
    pub kept_at :
        (j a : ℕ)
        → j ≢ i
        → m.owner (index a) ≡ some j
        → (g'.due a ≡ g.due a) × (g'.am a ≡ g.am a) × (g'.unset a ≡ g.unset a)
    pub late : (s w : ℕ) → g'.stamp s ≡ some w → (g.stamp s ≡ some w) ⊎ (m.clock < w)
    pub set :
        (b w : ℕ)
        → g.unset b ≡ true
        → g.stamp (index b) ≡ some w
        → ((g'.unset b ≡ true) × (g'.stamp (index b) ≡ some w)) ⊎ (w ≤ m'.ver (index b))
    pub changed :
        (a : ℕ)
        → (g'.am a ≡ g.am a) ⊎ ((w : ℕ) × (g'.unset a ≡ true) × (g'.stamp (index a) ≡ some w))

  -- The locks that the thread `i` holds.
  pub record Held (i : ℕ) (m : Memory V) (held : List ℕ) : Type 0 where
    pub all : (s : ℕ) → m.owner s ≡ some i → contains s held ≡ true
    pub only : (s : ℕ) → contains s held ≡ true → m.owner s ≡ some i
    pub distinct : Distinct held

  -- What was read at `a` has changed, or is going to while its lock is held: the validation fails.
  abbrev pub Doomed : Memory V → Ghost V → ℕ → ℕ → Type 0
  Doomed m g rv a =
      (rv < m.ver (index a))
      ⊎ ((b : ℕ) × (w : ℕ) × (g.unset b ≡ true)
          × (index b ≡ index a)
          × (g.stamp (index b) ≡ some w)
          × (rv < w))

  abbrev pub Agrees : (ℕ → V) → List (ℕ × V) → Type 0
  Agrees mem seen = All (λ c. mem c.0 ≡ c.1) seen

  -- A read value is still the data of its address, or the transaction is doomed.
  abbrev pub Valid : Memory V → Ghost V → ℕ → Log V → ℕ × V → Type 0
  Valid m g rv log c = (log.was_read c.0 ≡ true) × ((g.am c.0 ≡ c.1) ⊎ Doomed m g rv c.0)

  -- A transaction that has come to `rest`, and what it has seen.
  pub record Reading {A : Type 0} (m : Memory V) (g : Ghost V) (x : Txn V A) (rest : Tx V A)
      : Type 0 where
    pub rv_clock : x.rv ≤ m.clock
    pub seen : List (ℕ × V)
    pub replay :
        (mem : ℕ → V) → Agrees mem seen → exec x.body mem ≡ exec rest (over x.log.staged mem)
    pub noted : (a w : ℕ) → x.log.was_read a ≡ true → g.stamp (index a) ≡ some w → x.rv < w
    pub still : All (Valid m g x.rv x.log) seen
    pub read_logged : (a : ℕ) → x.log.was_read a ≡ true → contains a x.log.locs ≡ true
    pub write_logged : (a : ℕ) (v : V) → x.log.staged a ≡ some v → contains a x.log.locs ≡ true

  abbrev pub Stamped : Ghost V → Option ℕ → List ℕ → Type 0
  Stamped g w held = (s : ℕ) → contains s held ≡ true → g.stamp s ≡ w

  -- No write is due at the locks.
  abbrev pub Quiet : Ghost V → List ℕ → Type 0
  Quiet g held = (a : ℕ) → contains (index a) held ≡ true → g.due a ≡ false

  abbrev pub Checked : {A : Type 0} → Memory V → Txn V A → List ℕ → Type 0
  Checked m x todo =
      (a : ℕ) → x.log.was_read a ≡ true → (contains a todo ≡ true) ⊎ (m.ver (index a) ≤ x.rv)

  -- The writes that are left, and those that are due.
  abbrev pub Pending : {A : Type 0} → Ghost V → Txn V A → (todo held : List ℕ) → Type 0
  Pending g x todo held =
      (a : ℕ) (v : V)
      → contains a todo ≡ true
      → x.log.staged a ≡ some v
      → (g.am a ≡ v) × (contains (index a) held ≡ true)

  abbrev pub Left : {A : Type 0} → Ghost V → Txn V A → (todo held : List ℕ) → Type 0
  Left g x todo held =
      (a : ℕ)
      → contains (index a) held ≡ true
      → g.due a ≡ true
      → (contains a todo ≡ true) × ((v : V) × (x.log.staged a ≡ some v))

module _ {V : Type 0} (i : ℕ) (m : Memory V) (g : Ghost V) where
  pub record Releasing (held : List ℕ) : Type 0 where
    pub locks : Held i m held
    pub quiet : Quiet g held

module _ {V A : Type 0} (i : ℕ) (m : Memory V) (g : Ghost V) where
  pub record Locking (x : Txn V A) (r : A) (todo held : List ℕ) : Type 0 where
    pub reading : Reading m g x (ret r)
    pub locks : Held i m held
    pub covered : Covered x.log.locs todo held
    pub stamped : Stamped g none held

  pub record Validating (x : Txn V A) (wv : ℕ) (r : A) (todo held : List ℕ) : Type 0 where
    pub reading : Reading m g x (ret r)
    pub locks : Held i m held
    pub covered : Covered x.log.locs [] held
    pub stamped : Stamped g (some wv) held
    pub quiet : Quiet g held
    pub checked : Checked m x todo

  pub record Writing (x : Txn V A) (wv : ℕ) (todo held : List ℕ) : Type 0 where
    pub locks : Held i m held
    pub stamped : Stamped g (some wv) held
    pub pending : Pending g x todo held
    pub left : Left g x todo held

  pub record Moving (x : Txn V A) (wv a : ℕ) (v : V) (todo held : List ℕ) : Type 0 where
    pub locks : Held i m held
    pub stamped : Stamped g (some wv) held
    pub pending : Pending g x (a ∷ todo) held
    pub left : Left g x (a ∷ todo) held
    pub value : x.log.staged a ≡ some v
    pub set : m.ver (index a) ≡ wv
    pub not_unset : g.unset a ≡ false

  pub record Fetching (x : Txn V A) (a : ℕ) (f : V → Tx V A) : Type 0 where
    pub reading : Reading m g x (load a f)
    pub locks : Held i m []
    pub noted : x.log.was_read a ≡ true

  pub record Running (x : Txn V A) (rest : Tx V A) : Type 0 where
    pub reading : Reading m g x rest
    pub locks : Held i m []

  -- What is true of the thread `i` where it stands.
  abbrev pub Fine : Pc V A → Type 0
  Fine idle = Held i m []
  Fine lost = Held i m []
  Fine (running x rest) = Running x rest
  Fine (fetching x a f) = Fetching x a f
  Fine (locking x r todo held) = Locking x r todo held
  Fine (validating x wv r todo held) = Validating x wv r todo held
  Fine (writing x wv todo held) = Writing x wv todo held
  Fine (moving x wv a v todo held) = Moving x wv a v todo held
  Fine (releasing held) = Releasing i m g held
