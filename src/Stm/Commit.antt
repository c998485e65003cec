-- ===== src/Stm/Commit.antt =====
-- The loops of tl2/stm.h that run under the locks: the validation of the read set, and `commit`.
use tl2_cpp.Common.{
  ℕ, ◌+◌, ◌%◌, ◌^◌, ◌≤◌, ◌≡◌, refl, ◌∙◌, Bool, true, false, not, none, some, List, [], ◌∷◌, ◌==◌,
  ◌||◌, ◌&&◌, ltb, arith, if◌then◌else◌, contains, All, inl, inr, Bool-cases, Option-cases, update,
}
use tl2_cpp.Common.Res.{ok}
use tl2_cpp.VersionLock
use tl2_cpp.VersionLock.{is_locked}
use tl2_cpp.LockTable.{LockTable, index}
use tl2_cpp.Store.{Store, value, alive, cell}
use tl2_cpp.Location
use tl2_cpp.Location.{Location, WriteVal, blank, staged, val_addr}
use tl2_cpp.LocationSet.Entries.{index_of, IsDistinct}
use tl2_cpp.LocationSet.Entries.Owned.{
  owns, owners, is_staged, IsBacked, tail-IsBacked, staged_value, val_of,
}
use tl2_cpp.TVar.Alone.{seen}
use tl2_cpp.Stm.{commit, validate, commit_locked}

-- The entry is marked as locked by this thread.
abbrev pub IsMine : ℕ → Location → Type 0
IsMine me l = l.owner ≡ some me

-- The locks of the locations that were written.
abbrev pub written_locks : List Location → List ℕ
written_locks [] = []
written_locks (l ∷ ls) = if l.was_written then index l.addr ∷ written_locks ls else written_locks ls

-- No location that was read has a version above `rv`.
abbrev pub is_valid : ℕ → LockTable → List Location → Bool
is_valid rv locks [] = true
is_valid rv locks (l ∷ ls) =
    (if l.was_read
      then not (ltb rv (VersionLock.unsafe_get_version (locks (index l.addr))))
      else true)
    && is_valid rv locks ls

get_version-mine :
    (me : ℕ) (locks : LockTable) (l : Location)
    → IsMine me l
    → Location.get_version me locks l ≡ ok (VersionLock.unsafe_get_version (locks (index l.addr)))
unfolding Location.get_version
get_version-mine me locks l mine = rw mine (ground arith)

-- Under its own locks the validation never waits, and it answers whether the read set is valid.
pub validate-is_valid :
    (me rv : ℕ) (locks : LockTable) (ls : List Location)
    → All (IsMine me) ls
    → validate me rv locks ls ≡ ok (is_valid rv locks ls)
unfolding validate
validate-is_valid me rv locks [] mine = refl
validate-is_valid me rv locks (l ∷ ls) mine =
    ground (arith, get_version-mine me locks l, validate-is_valid me rv locks ls mine.1)

version_again :
    (v s : ℕ)
    → VersionLock.unsafe_set_version v (VersionLock.unsafe_set_version v s)
      ≡ VersionLock.unsafe_set_version v s
unfolding VersionLock.unsafe_set_version
version_again v s = ground arith

set_version-mine :
    (me v : ℕ) (locks : LockTable) (l : Location)
    → IsMine me l
    → Location.set_version me v locks l
      ≡ ok (update locks (index l.addr) (VersionLock.unsafe_set_version v (locks (index l.addr))))
unfolding Location.set_version
set_version-mine me v locks l mine = rw mine (ground arith)

module _ {V : Type 0} where
  staged_value-absent :
      (a : ℕ) (ls : List Location) (st : Store V)
      → index_of a ls ≡ none
      → staged_value a ls st ≡ ok none
  unfolding index_of staged_value
  staged_value-absent a [] st h = refl
  staged_value-absent a (l ∷ ls) st h = ground (arith, staged_value-absent a ls st)

  -- The move of one written entry.
  move-written :
      (w : WriteVal) (l : Location) (st : Store V) (mem : ℕ → V)
      → w ≡ l.write_val
      → is_staged w ≡ true
      → ((p : ℕ) → owns p w ≤ alive p st)
      → (v : V) × (Location.move st mem l ≡ ok (update mem l.addr v))
        × (val_of l.write_val true st ≡ ok (some v))
  unfolding Location.move value alive val_of val_addr
  move-written blank l st mem e s back = cc
  move-written (staged p) l st mem e s back = elim (Option-cases (cell p st)) [
    | inl dead ↦ absurd (ground (arith, back p))
    | inr (v, at) ↦ (v, rw (← e) (rw at), rw (← e) (rw at))
  ]

  -- What `commit` leaves: the new version on the locks of the written locations, and their values
  -- in the data.
  pub record Committed (wv : ℕ) (st : Store V) (ls : List Location) (locks : LockTable)
      (mem : ℕ → V) (locks' : LockTable) (mem' : ℕ → V) : Type 0 where
    pub versions :
        (i : ℕ)
        → locks' i ≡ (
            if contains i (written_locks ls)
            then VersionLock.unsafe_set_version wv (locks i)
            else locks i)
    pub contents : (a : ℕ) → mem' a ≡ seen (staged_value a ls st) (mem a)

  module _ (me wv : ℕ) (st : Store V) (l : Location) (ls : List Location)
      (back : IsBacked (l ∷ ls) st) (locks : LockTable) (mem : ℕ → V) where
    Committed-skip :
        {locks' : LockTable} {mem' : ℕ → V}
        → l.was_written ≡ false
        → index_of l.addr ls ≡ none
        → Committed wv st ls locks mem locks' mem'
        → Committed wv st (l ∷ ls) locks mem locks' mem'
    unfolding staged_value val_of
    Committed-skip h apart c = record {
      versions = λ i. rw h (c.versions i);
      contents = λ a. ground (arith, c.contents a, staged_value-absent l.addr ls st);
    }

    Committed-cons :
        {locks' : LockTable} {mem' : ℕ → V} (v : V)
        → l.was_written ≡ true
        → index_of l.addr ls ≡ none
        → val_of l.write_val true st ≡ ok (some v)
        → Committed wv st ls
            (update locks (index l.addr) (VersionLock.unsafe_set_version wv (locks (index l.addr))))
            (update mem l.addr v)
            locks'
            mem'
        → Committed wv st (l ∷ ls) locks mem locks' mem'
    unfolding staged_value
    Committed-cons v h apart val c = record {
      versions = λ i. ground (arith, c.versions i, version_again wv (locks i));
      contents = λ a. ground (arith, c.contents a, staged_value-absent l.addr ls st);
    }

  commit-nil :
      (me wv : ℕ) (st : Store V) (locks : LockTable) (mem : ℕ → V)
      → commit me wv st [] locks mem ≡ ok (locks, mem)
  unfolding commit
  commit-nil me wv st locks mem = refl

  commit-skip :
      (me wv : ℕ) (st : Store V) (l : Location) (ls : List Location) (locks : LockTable)
      (mem : ℕ → V)
      → l.was_written ≡ false
      → commit me wv st (l ∷ ls) locks mem ≡ commit me wv st ls locks mem
  unfolding commit
  commit-skip me wv st l ls locks mem h = ground arith

  commit-written :
      (me wv : ℕ) (st : Store V) (l : Location) (ls : List Location) (locks : LockTable)
      (mem : ℕ → V) {locks' : LockTable} {mem' : ℕ → V}
      → l.was_written ≡ true
      → Location.set_version me wv locks l ≡ ok locks'
      → Location.move st mem l ≡ ok mem'
      → commit me wv st (l ∷ ls) locks mem ≡ commit me wv st ls locks' mem'
  unfolding commit
  commit-written me wv st l ls locks mem h e e' = ground arith

  -- Under its own locks `commit` never waits and touches no dead object.
  pub commit-Committed :
      (me wv : ℕ) (st : Store V) (ls : List Location) (locks : LockTable) (mem : ℕ → V)
      → All (IsMine me) ls
      → IsBacked ls st
      → IsDistinct ls
      → (locks' : LockTable) × (mem' : ℕ → V) × (commit me wv st ls locks mem ≡ ok (locks', mem'))
        × Committed wv st ls locks mem locks' mem'
  unfolding owners staged_value
  commit-Committed me wv st [] locks mem mine back apart = (
    locks,
    mem,
    commit-nil me wv st locks mem,
    record { versions = λ i. refl; contents = λ a. refl },
  )
  commit-Committed me wv st (l ∷ ls) locks mem mine back apart = elim (Bool-cases l.was_written) [
    | inl h ↦
        let (v, e, val) =
          move-written l.write_val l st mem refl (back.entries.0 ∙ h)
            (λ p. omega (arith, back.backed p)) in
        let (locks', mem', e', c) =
          commit-Committed me wv st ls
            (update locks (index l.addr) (VersionLock.unsafe_set_version wv (locks (index l.addr))))
            (update mem l.addr v) mine.1 (tail-IsBacked l ls st back) apart.1 in
        (
          locks',
          mem',
          commit-written me wv st l ls locks mem h (set_version-mine me wv locks l mine.0) e ∙ e',
          Committed-cons me wv st l ls back locks mem v h apart.0 val c,
        )
    | inr h ↦
        let (locks', mem', e', c) =
          commit-Committed me wv st ls locks mem mine.1 (tail-IsBacked l ls st back) apart.1 in
        (
          locks',
          mem',
          commit-skip me wv st l ls locks mem h ∙ e',
          Committed-skip me wv st l ls back locks mem h apart.0 c,
        )
  ]

-- Whether `try_commit` commits.
abbrev pub decides : ℕ → ℕ → LockTable → List Location → Bool
decides rv wv locks ls = (wv == (rv + 1) % 2 ^ 64) || is_valid rv locks ls

module _ {V : Type 0} where
  -- What `try_commit` leaves before the locks are given back, if it commits and if not.
  abbrev pub Decided :
      Bool → ℕ → Store V → List Location → LockTable → (ℕ → V) → LockTable → (ℕ → V) → Type 0
  Decided true wv st ls locks mem locks' mem' = Committed wv st ls locks mem locks' mem'
  Decided false wv st ls locks mem locks' mem' = (locks' ≡ locks) × (mem' ≡ mem)

  -- It commits exactly if no other transaction has taken a version since the start, or no location
  -- that was read is newer than the start.
  pub commit_locked-Decided :
      (me rv wv : ℕ) (st : Store V) (ls : List Location) (locks : LockTable) (mem : ℕ → V)
      → All (IsMine me) ls
      → IsBacked ls st
      → IsDistinct ls
      → (locks' : LockTable) × (mem' : ℕ → V) × (commit_locked me rv wv st ls locks mem
          ≡ ok (decides rv wv locks ls, locks', mem'))
        × Decided (decides rv wv locks ls) wv st ls locks mem locks' mem'
  unfolding commit_locked
  commit_locked-Decided me rv wv st ls locks mem mine back apart =
      let (locks', mem', e, c) = commit-Committed me wv st ls locks mem mine back apart in
      elim (Bool-cases (wv == (rv + 1) % 2 ^ 64)) [
        | inl next ↦ (locks', mem', rw (next, commit_locked) (rw e), rw next c)
        | inr later ↦ elim (Bool-cases (is_valid rv locks ls)) [
          | inl valid ↦ (
            locks',
            mem',
            rw (later, commit_locked) (rw (validate-is_valid me rv locks ls mine, valid) (rw e)),
            rw (later, valid) c,
          )
          | inr stale ↦ (
            locks,
            mem,
            rw (later, commit_locked) (rw (validate-is_valid me rv locks ls mine, stale)),
            rw (later, stale) (refl, refl),
          )
        ]
      ]
