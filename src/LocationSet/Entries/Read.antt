-- ===== src/LocationSet/Entries/Read.antt =====
-- What `read_entry` does to the entries.
use tl2_cpp.Common.{
  ℕ, ◌≡◌, refl, true, false, none, List, [], ◌∷◌, ◌==◌, ◌||◌, arith, inl, inr, All, Bool-cases,
  eq_of_==,
}
use tl2_cpp.Common.Res.{ok}
use tl2_cpp.VersionLock
use tl2_cpp.VersionLock.{is_locked}
use tl2_cpp.LockTable.{LockTable, index}
use tl2_cpp.Store.{Store}
use tl2_cpp.Location
use tl2_cpp.Location.{Location, lock_ptr, is_me}
use tl2_cpp.LocationSet.Entries.{read_entry, has_read, index_of, IsDistinct}
use tl2_cpp.LocationSet.Entries.Owned.{owners, IsEntry, IsUnowned, staged_value, val_of}

-- The location, noted for reading at the version of its lock.
abbrev pub noted : LockTable → Location → Location
noted locks l = record l {
  was_read = true;
  rv = VersionLock.unsafe_get_version (locks (index l.addr));
}

-- A read of a location whose lock is free notes its version.
pub read-free :
    (me : ℕ) (locks : LockTable) (l : Location)
    → l.owner ≡ none
    → is_locked (locks (index l.addr)) ≡ false
    → Location.read me locks l ≡ ok (noted locks l)
unfolding Location.read VersionLock.get_version VersionLock.unsafe_get_version
read-free me locks l u free = rw (u, free)

pub record ReadEntry (V : Type 0) (a : ℕ) (ls ls' : List Location) : Type 0 where
  pub owned : (p : ℕ) → owners p ls' ≡ owners p ls
  pub entries : All IsEntry ls → All IsEntry ls'
  pub unowned : All IsUnowned ls → All IsUnowned ls'
  pub absent : (b : ℕ) → (a == b) ≡ false → index_of b ls ≡ none → index_of b ls' ≡ none
  pub distinct : IsDistinct ls → IsDistinct ls'
  pub values : (b : ℕ) (st : Store V) → staged_value b ls' st ≡ staged_value b ls st
  pub reads : (b : ℕ) → has_read b ls' ≡ (a == b) || has_read b ls

module _ (me : ℕ) (locks : LockTable) (a : ℕ) (V : Type 0) where
  -- While its lock is free, an address is noted for reading, and the staged values stay.
  pub read_entry-ReadEntry :
      (ls : List Location)
      → is_locked (locks (index a)) ≡ false
      → All IsUnowned ls
      → (ls' : List Location) × (read_entry me locks a ls ≡ ok ls') × ReadEntry V a ls ls'
  unfolding read_entry has_read index_of owners staged_value Location.new_read Location.new_location
      val_of
  read_entry-ReadEntry [] free u = (
    noted locks (Location.new_location a) ∷ [],
    rw (read-free me locks (Location.new_location a) refl free),
    record {
      owned = λ p. refl;
      entries = λ e. (refl, tt);
      unowned = λ u. (refl, tt);
      absent = λ b n h. ground arith;
      distinct = λ d. (refl, tt);
      values = λ b st. ground arith;
      reads = λ b. ground arith;
    },
  )
  read_entry-ReadEntry (l ∷ ls) free u = elim (Bool-cases (l.addr == a)) [
    | inl hit ↦
        let here : is_locked (locks (index l.addr)) ≡ false = rw (eq_of_== l.addr a hit) free in
        (
          noted locks l ∷ ls,
          rw (hit, read-free me locks l u.0 here),
          record {
            owned = λ p. refl;
            entries = λ e. e;
            unowned = λ u. u;
            absent = λ b n h. h;
            distinct = λ d. d;
            values = λ b st. refl;
            reads = λ b. ground arith;
          },
        )
    | inr miss ↦
        let (ls', e, r) = read_entry-ReadEntry ls free u.1 in
        (
          l ∷ ls',
          rw (miss, e),
          record {
            owned = λ p. rw (r.owned p);
            entries = λ e. (e.0, r.entries e.1);
            unowned = λ u. (u.0, r.unowned u.1);
            absent = λ b n h. ground (arith, r.absent b);
            distinct = λ d. (r.absent l.addr (ground arith) d.0, r.distinct d.1);
            values = λ b st. rw (r.values b st);
            reads = λ b. ground (arith, r.reads b);
          },
        )
  ]
