-- ===== src/Atomic/Others.antt =====
-- What other threads do to the shared state between the accesses of one thread, as long as none of
-- them is in the middle of a commit.
use tl2_cpp.Common.{
  ℕ, ◌+◌, ◌*◌, ◌^◌, ◌<◌, ◌≤◌, ◌≡◌, refl, ◌∙◌, ap, Bool, true, false, none, List, [], ◌∷◌, arith,
  ◌⊎◌, inl, inr, Bool-cases, contains, if◌then◌else◌, ◌&&◌,
}
use tl2_cpp.Common.Res.{ok}
use tl2_cpp.VersionLock
use tl2_cpp.VersionLock.{is_locked, incr_version, pack}
use tl2_cpp.VersionLock.Pack.{incr_version-next}
use tl2_cpp.LockTable.{LockTable, index}
use tl2_cpp.Store.{Store}
use tl2_cpp.Location.{Location}
use tl2_cpp.LocationSet.Entries.{has_read}
use tl2_cpp.LocationSet.Entries.Owned.{staged_value, val_of}
use tl2_cpp.LocationSet.Vendored.{AddrMap}
use tl2_cpp.Manager.{Shared, World}
use tl2_cpp.TVar.Alone.{seen, view, is_read}
use tl2_cpp.Stm.Commit.{decides, is_valid, written_locks}
use tl2_cpp.Stm.TryCommit.{Tried, next_version, vec}
use tl2_cpp.Atomic.Alone.{IsOpen, HasRoom, tried-IsOpen}

-- The version in a word.
abbrev pub ver : ℕ → ℕ
ver s = VersionLock.unsafe_get_version s

module _ {V : Type 0} where
  -- No lock is held, and no version is newer than the clock.
  pub record IsQuiet (s : Shared V) : Type 0 where
    pub opened : IsOpen s
    pub bounded : (i : ℕ) → ver (s.locks i) ≤ ver s.clock

  -- Versions only grow, and data that has changed has a version that is newer than the clock was.
  pub record Later (s s' : Shared V) : Type 0 where
    pub clock : ver s.clock ≤ ver s'.clock
    pub locks : (i : ℕ) → ver (s.locks i) ≤ ver (s'.locks i)
    pub moved : (a : ℕ) → (s'.mem a ≡ s.mem a) ⊎ (ver s.clock < ver (s'.locks (index a)))

  pub Later-refl : (s : Shared V) → Later s s
  Later-refl s = record { clock = omega arith; locks = λ i. omega arith; moved = λ a. inl refl }

  pub Later-trans : {s s' s'' : Shared V} → Later s s' → Later s' s'' → Later s s''
  Later-trans {s} {s'} {s''} p q = record {
    clock = omega (arith, p.clock, q.clock);
    locks = λ i. omega (arith, p.locks i, q.locks i);
    moved = λ a. elim (q.moved a) [
      | inr new ↦ inr (omega (arith, p.clock))
      | inl same ↦ elim (p.moved a) [
        | inr new ↦ inr (omega (arith, q.locks (index a)))
        | inl old ↦ inl (same ∙ old)
      ]
    ];
  }

-- A read set that is valid has no version that is newer.
is_valid-has_read :
    (rv : ℕ) (locks : LockTable) (ls : List Location) (a : ℕ)
    → is_valid rv locks ls ≡ true
    → has_read a ls ≡ true
    → ver (locks (index a)) ≤ rv
unfolding has_read
is_valid-has_read rv locks [] a valid h = cc
is_valid-has_read rv locks (l ∷ ls) a valid h = elim (Bool-cases (has_read a ls)) [
  | inl later ↦ is_valid-has_read rv locks ls a (ground arith) later
  | inr now ↦ ground arith
]

-- What a set has not written it does not stage.
staged_value-unwritten :
    {V : Type 0} (a : ℕ) (ls : List Location) (st : Store V)
    → contains (index a) (written_locks ls) ≡ false
    → staged_value a ls st ≡ ok none
unfolding staged_value val_of
staged_value-unwritten a [] st h = refl
staged_value-unwritten a (l ∷ ls) st h = ground (arith, staged_value-unwritten a ls st)

unlocked_ver : (s : ℕ) → is_locked s ≡ false → s ≡ 2 * ver s
unfolding VersionLock.unsafe_get_version VersionLock.unpack_version
unlocked_ver s h = ground arith

ver-pack : (v : ℕ) → v < 2 ^ 63 → ver (pack v false) ≡ v
unfolding VersionLock.unsafe_get_version VersionLock.unpack_version pack
ver-pack v h = ground arith

-- A clock below its largest version has room for the next one.
pub small-HasRoom :
    {V : Type 0} (s : Shared V) → is_locked s.clock ≡ false → ver s.clock + 1 < 2 ^ 63 → HasRoom s
small-HasRoom s free small = omega (arith, unlocked_ver s.clock free)

module _ {m : AddrMap} {V : Type 0} where
  -- A transaction that other threads see go by keeps the shared state quiet, and what it changes
  -- gets a newer version.
  pub Tried-Later :
      (w w' : World m V) (d : Bool)
      → IsQuiet w.shared
      → ver w.shared.clock + 1 < 2 ^ 63
      → Tried d w w'
      → IsQuiet w'.shared × Later w.shared w'.shared
  Tried-Later w w' d q small tr = (
    record { opened = both.0; bounded = λ i. ground (arith, tr.locks i, q.bounded i, fresh, tick) },
    record {
      clock = omega (arith, tick);
      locks = λ i. ground (arith, tr.locks i, q.bounded i, fresh, tick);
      moved = λ a. moved a d tr.contents tr.locks;
    },
  )
    where
      room : HasRoom w.shared
      room = small-HasRoom w.shared q.opened.clock small

      both : IsOpen w'.shared × (ver w'.shared.clock ≡ ver w.shared.clock + 1)
      both = tried-IsOpen w w' d q.opened room tr

      tick : ver w'.shared.clock ≡ ver w.shared.clock + 1
      tick = both.1

      next : next_version w ≡ ver w.shared.clock + 1
      next = (incr_version-next w.shared.clock room).0

      fresh : ver (pack (next_version w) false) ≡ ver w.shared.clock + 1
      fresh = rw next (ver-pack (ver w.shared.clock + 1) small)

      moved :
          (a : ℕ) (c : Bool)
          → ((b : ℕ) → w'.shared.mem b ≡ (if c then view w b else w.shared.mem b))
          → ((i : ℕ)
              → w'.shared.locks i ≡ (
                  if c && contains i (written_locks (vec w))
                  then pack (next_version w) false
                  else w.shared.locks i))
          → (w'.shared.mem a ≡ w.shared.mem a)
            ⊎ (ver w.shared.clock < ver (w'.shared.locks (index a)))
      moved a false mem locks = inl (mem a)
      moved a true mem locks = elim (Bool-cases (contains (index a) (written_locks (vec w)))) [
        | inl new ↦ inr (rw (locks (index a), new) (rw fresh (omega arith)))
        | inr old ↦ inl (
            mem a
            ∙ ap (λ x. seen x (w.shared.mem a))
                (staged_value-unwritten a (vec w) w.manager.log.store old))
      ]

  -- If `try_commit` decides to commit, then what the transaction has read is as it was at its start.
  pub decides-same :
      (w : World m V) (s : Shared V)
      → w.manager.rv ≡ ver s.clock
      → IsQuiet w.shared
      → ver w.shared.clock + 1 < 2 ^ 63
      → Later s w.shared
      → decides w.manager.rv (next_version w) w.shared.locks (vec w) ≡ true
      → (a : ℕ) → is_read w a ≡ true
      → w.shared.mem a ≡ s.mem a
  decides-same w s rv q small l sure a read = elim (l.moved a) [
    | inl same ↦ same
    | inr new ↦ elim (Bool-cases (is_valid w.manager.rv w.shared.locks (vec w))) [
      | inl valid ↦
          ground
            (arith, is_valid-has_read w.manager.rv w.shared.locks (vec w) a valid read, rv, new)
      | inr stale ↦ ground (arith, next, q.bounded (index a), rv, new, sure, stale)
    ]
  ]
    where
      next : next_version w ≡ ver w.shared.clock + 1
      next = (incr_version-next w.shared.clock (small-HasRoom w.shared q.opened.clock small)).0
