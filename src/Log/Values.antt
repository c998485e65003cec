-- ===== src/Log/Values.antt =====
-- tl2/log.h: what a transaction reads back from its log.
use tl2_cpp.Common.{
  ℕ, ◌≡◌, refl, ◌∙◌, ap, false, Option, none, some, ◌==◌, ◌||◌, arith, if◌then◌else◌, All,
}
use tl2_cpp.Common.Res.{Res, ok, >>=-eq-ok, ok-injective}
use tl2_cpp.VersionLock.{is_locked}
use tl2_cpp.LockTable.{LockTable, index}
use tl2_cpp.Store
use tl2_cpp.Store.{Store, alive}
use tl2_cpp.Policy.Free.{clear-ok}
use tl2_cpp.Log.{Log, new, value_at, append_read, append_write, clear}
use tl2_cpp.LocationSet.Vendored.{AddrMap}
use tl2_cpp.LocationSet.Entries.{index_of, has_read, staged_at, IsDistinct}
use tl2_cpp.LocationSet.Entries.Owned.{
  owners, IsEntry, IsUnowned, IsBacked, staged_value, staged_value-staged_at, deref,
  staged_value-ok,
}
use tl2_cpp.LocationSet.Entries.Read.{read_entry-ReadEntry}
use tl2_cpp.LocationSet.Entries.Write.{write_entry-WroteEntry}
use tl2_cpp.LocationSet.Hash
use tl2_cpp.LocationSet.Hash.{HashVectorSet}
use tl2_cpp.LocationSet.Hash.Refine.{
  IsIndexed, vec-register_read, vec-register_write, find_write-staged_at, register_read-IsIndexed,
  register_write-IsIndexed,
}

module _ (m : AddrMap) {V : Type 0} where
  -- The map is in step with the vector, each staged object has one owner, and no lock is held.
  pub record IsLog (log : Log m V) : Type 0 where
    pub indexed : IsIndexed m log.l
    pub entries : All IsEntry log.l.vec
    pub exact : (p : ℕ) → owners p log.l.vec ≡ alive p log.store
    pub distinct : IsDistinct log.l.vec
    pub unowned : All IsUnowned log.l.vec

  abbrev pub values : Log m V → ℕ → Res (Option V)
  values log a = staged_value a log.l.vec log.store

  pub IsLog-IsBacked : {log : Log m V} → IsLog log → IsBacked log.l.vec log.store
  IsLog-IsBacked h = record { entries = h.entries; backed = λ p. omega (arith, h.exact p) }

  pub new-IsLog : IsLog (new m)
  unfolding new Hash.new owners alive Store.cell index_of
  new-IsLog = record {
    indexed = m.find-empty;
    entries = tt;
    exact = λ p. refl;
    distinct = tt;
    unowned = tt;
  }

  pub new-values : (b : ℕ) → values (new m) b ≡ ok none
  unfolding new Hash.new staged_value
  new-values b = refl

  -- Noting a read of an address with a free lock succeeds, and changes no staged value; the address
  -- is one that was read, like those before.
  pub append_read-values :
      (me : ℕ) (locks : LockTable) (a : ℕ) (log : Log m V)
      → IsLog log
      → is_locked (locks (index a)) ≡ false
      → (log' : Log m V) × (append_read m me locks a log ≡ ok log')
        × IsLog log'
        × ((b : ℕ) → values log' b ≡ values log b)
        × ((b : ℕ) → has_read b log'.l.vec ≡ (a == b) || has_read b log.l.vec)
  unfolding append_read
  append_read-values me locks a log h free =
      let (ls', e, r) = read_entry-ReadEntry me locks a V log.l.vec free h.unowned in
      let (s', got, same) =
        >>=-eq-ok (Hash.register_read m me locks a log.l) _
          (vec-register_read m me locks a log.l h.indexed ∙ e) in
      let eq : s'.vec ≡ ls' = ok-injective same in
      (
        record log { l = s' },
        rw got,
        record {
          indexed = register_read-IsIndexed m me locks a log.l h.indexed got;
          entries = rw eq (r.entries h.entries);
          exact = λ p. rw eq (r.owned p ∙ h.exact p);
          distinct = rw eq (r.distinct h.distinct);
          unowned = rw eq (r.unowned h.unowned);
        },
        λ b. rw eq (r.values b log.store),
        λ b. rw eq (r.reads b),
      )

  -- A write to the log succeeds, and is what the log has for its address, and for no other.
  pub append_write-values :
      (a : ℕ) (v : V) (log : Log m V)
      → IsLog log
      → (log' : Log m V) × (append_write m a v log ≡ ok log')
        × IsLog log'
        × ((b : ℕ) → values log' b ≡ (if a == b then ok (some v) else values log b))
        × ((b : ℕ) → has_read b log'.l.vec ≡ has_read b log.l.vec)
  unfolding append_write
  append_write-values a v log h =
      let (ls', st', e, w) = write_entry-WroteEntry a v log.l.vec log.store (IsLog-IsBacked h) in
      let ((s', st₁), got, same) =
        >>=-eq-ok (Hash.register_write m a v log.store log.l) _
          (vec-register_write m a v log.store log.l h.indexed ∙ e) in
      let eq : s'.vec ≡ ls' = ap (λ x. x.0) (ok-injective same) in
      let eqs : st₁ ≡ st' = ap (λ x. x.1) (ok-injective same) in
      (
        record { l = s'; store = st₁ },
        rw got,
        record {
          indexed = register_write-IsIndexed m a v log.store log.l h.indexed got;
          entries = rw eq w.entries;
          exact = λ p. rw (eq, eqs) (omega (arith, w.balance p, h.exact p));
          distinct = rw eq (w.distinct h.distinct);
          unowned = rw eq (w.unowned h.unowned);
        },
        λ b. rw (eq, eqs) (w.values b),
        λ b. rw eq (w.reads b),
      )

  -- What `value_at` finds for an address leads to the staged value, and the object is alive.
  pub value_at-values :
      (a : ℕ) (log : Log m V)
      → IsLog log
      → (e : Option ℕ) × (o : Option V) × (value_at m a log ≡ ok e)
        × (deref e log.store ≡ ok o)
        × (values log a ≡ ok o)
  unfolding value_at
  value_at-values a log h =
      let (o, got) = staged_value-ok a log.l.vec log.store (IsLog-IsBacked h) in
      (
        staged_at a log.l.vec,
        o,
        find_write-staged_at m a log.l h.indexed,
        staged_value-staged_at a log.l.vec log.store ∙ got,
        got,
      )

  -- If each entry's object is alive and owned once, clearing a log touches no dead object, and
  -- leaves the log as a new one.
  pub clear-new : (log : Log m V) → IsBacked log.l.vec log.store → clear m log ≡ ok (new m)
  unfolding clear new Hash.clear Hash.new
  clear-new log back = rw (clear-ok log.l.vec log.store back)
