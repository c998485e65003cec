-- ===== src/Stm/TryCommit.antt =====
-- `try_commit` of tl2/stm.h while no lock is held.
pub mod Marked
use tl2_cpp.Common.{
  ℕ, ◌+◌, ◌%◌, ◌^◌, ◌≡◌, refl, sym, ◌∙◌, ap, subst, Bool, true, false, none, some, List, [], ◌∷◌,
  ◌==◌, ◌||◌, ◌&&◌, arith, if◌then◌else◌, contains, map, All, inl, inr, Bool-cases,
}
use tl2_cpp.Common.Res.{Res, ok, ◌>>=◌}
use tl2_cpp.VersionLock
use tl2_cpp.VersionLock.{is_locked, incr_version, pack}
use tl2_cpp.VersionLock.Pack.{unlock-add_one}
use tl2_cpp.LockTable.{LockTable, index}
use tl2_cpp.Store.{Store}
use tl2_cpp.Location.{Location, mark_owner}
use tl2_cpp.LocationSet.Entries.{IsDistinct}
use tl2_cpp.LocationSet.Entries.Owned.{
  IsBacked, IsUnowned, staged_value, staged_value-staged_at, deref,
}
use tl2_cpp.LocationSet.Entries.Permuted.{All-perm, Permuted, Permᴰ-Permuted}
use tl2_cpp.LocationSet.Hash.{stable_sort}
use tl2_cpp.LocationSet.Vendored.{AddrMap, Sorter}
use tl2_cpp.Log.Values.{IsLog, IsLog-IsBacked}
use tl2_cpp.LockGuard.{acquire}
use tl2_cpp.LockGuard.Acquire.{
  taken, firsts, held_after, locks_of, acquire-taken, contains-held_after,
}
use tl2_cpp.LockGuard.Release.{
  SameEntries, mark_owner-SameEntries, release-unlocks, firsts-is_in, contains-firsts, is_in,
}
use tl2_cpp.Manager.{Shared, Manager, World, State}
use tl2_cpp.TVar.Alone.{IsFree, seen, view}
use tl2_cpp.Stm.{try_commit}
use tl2_cpp.Stm.Commit.{
  IsMine, written_locks, is_valid, decides, Committed, Decided, commit_locked-Decided,
}
use tl2_cpp.Stm.TryCommit.Marked.{
  mark_owner-IsMine, mark_owner-IsDistinct, mark_owner-staged_value, mark_owner-written_locks,
  is_valid-taken, is_valid-perm, written_locks-perm, written-locks_of, is_in-mark_owner,
}

-- The lock bit and the version that `unlock` shows.
unlock-set : (v s : ℕ) → VersionLock.unlock (VersionLock.unsafe_set_version v s) ≡ pack v false
unfolding VersionLock.unlock VersionLock.unsafe_set_version pack
unlock-set v s = ground arith

module _ {m : AddrMap} {V : Type 0} where
  abbrev pub vec : World m V → List Location
  vec w = w.manager.log.l.vec

  -- The version that the next commit would write.
  abbrev pub next_version : World m V → ℕ
  next_version w = (incr_version w.shared.clock).1

  -- What `try_commit` leaves: the clock is one further; if it commits, the data is what the
  -- transaction saw, and the locks of what it wrote carry the new version; if not, neither data nor
  -- locks have changed. No lock is held, and the log can be cleared.
  pub record Tried (committed : Bool) (w w' : World m V) : Type 0 where
    pub clock : w'.shared.clock ≡ (incr_version w.shared.clock).0
    pub contents : (a : ℕ) → w'.shared.mem a ≡ (if committed then view w a else w.shared.mem a)
    pub locks :
        (i : ℕ)
        → w'.shared.locks i ≡ (
            if committed && contains i (written_locks (vec w))
            then pack (next_version w) false
            else w.shared.locks i)
    pub me : w'.manager.me ≡ w.manager.me
    pub state : w'.manager.state ≡ w.manager.state
    pub backed : IsBacked (vec w') w'.manager.log.store

  module _ (srt : Sorter) (w : World m V) (h : IsLog m w.manager.log)
      (free : IsFree w.shared.locks) where
    abbrev sorted : List Location
    sorted = srt.sort (λ (l : Location). l.addr) (vec w)

    perm : Permuted (vec w) sorted
    perm = Permᴰ-Permuted (srt.sort-perm (λ (l : Location). l.addr) (vec w))

    abbrev marked : List Location
    marked = map (mark_owner w.manager.me) sorted

    marked-IsBacked : IsBacked marked w.manager.log.store
    marked-IsBacked =
        let s = mark_owner-SameEntries w.manager.me sorted in
        record {
          entries =
              s.entries (All-perm _ (srt.sort-perm (λ (l : Location). l.addr) (vec w)) h.entries);
          backed = λ p. omega (arith, s.owned p, perm.owned p, h.exact p);
        }

    abbrev held : List ℕ
    held = held_after [] sorted

    decides-marked :
        (wv : ℕ)
        → decides w.manager.rv wv (taken w.shared.locks held) marked
          ≡ decides w.manager.rv wv w.shared.locks (vec w)
    decides-marked wv =
        ap (λ x. (wv == (w.manager.rv + 1) % 2 ^ 64) || x)
          (is_valid-taken w.manager.me w.manager.rv w.shared.locks held sorted free
            ∙ is_valid-perm w.manager.rv w.shared.locks
                (srt.sort-perm (λ (l : Location). l.addr) (vec w)))

    staged_value-marked :
        (a : ℕ)
        → staged_value a marked w.manager.log.store ≡ staged_value a (vec w) w.manager.log.store
    staged_value-marked a =
        mark_owner-staged_value w.manager.me a sorted w.manager.log.store
        ∙ sym (staged_value-staged_at a sorted w.manager.log.store)
        ∙ ap (λ p. deref p w.manager.log.store) (perm.staged h.distinct a)
        ∙ staged_value-staged_at a (vec w) w.manager.log.store

    written-marked :
        (i : ℕ) → contains i (written_locks marked) ≡ contains i (written_locks (vec w))
    written-marked i =
        ap (contains i) (mark_owner-written_locks w.manager.me sorted)
        ∙ written_locks-perm i (srt.sort-perm (λ (l : Location). l.addr) (vec w))

    -- A lock of a written location is among those that were taken, and given back.
    released :
        (i : ℕ)
        → (contains i (map index (firsts [] sorted)) ≡ contains i held)
          × (contains i (written_locks (vec w)) ≡ true → contains i held ≡ true)
    released i = (
      contains-firsts i [] sorted,
      λ e.
          contains-held_after i [] sorted
          ∙ written-locks_of i sorted
              (written_locks-perm i (srt.sort-perm (λ (l : Location). l.addr) (vec w)) ∙ e),
    )

    -- The table and the data, before and after the locks are given back.
    settled :
        (d : Bool) (locks₁ : LockTable) (mem₁ : ℕ → V) (locks₂ : LockTable)
        → Decided d
            (next_version w)
            w.manager.log.store
            marked
            (taken w.shared.locks held)
            w.shared.mem
            locks₁
            mem₁
        → ((i : ℕ)
            → locks₂ i ≡ (
                if contains i (map index (firsts [] sorted))
                then VersionLock.unlock (locks₁ i)
                else locks₁ i))
        → ((a : ℕ) → mem₁ a ≡ (if d then view w a else w.shared.mem a))
          × ((i : ℕ)
              → locks₂ i ≡ (
                  if d && contains i (written_locks (vec w))
                  then pack (next_version w) false
                  else w.shared.locks i))
    settled true locks₁ mem₁ locks₂ c unl = (
      λ a. c.contents a ∙ ap (λ x. seen x (w.shared.mem a)) (staged_value-marked a),
      λ i. ground (
        arith,
        unl i,
        released i,
        c.versions i,
        written-marked i,
        unlock-set (next_version w) (w.shared.locks i + 1),
        unlock-add_one (w.shared.locks i) (free i),
      ),
    )
    settled false locks₁ mem₁ locks₂ (same, kept) unl = (
      λ a. ap (λ f. f a) kept,
      λ i. ground (
        arith,
        unl i,
        released i,
        ap (λ (f : LockTable). f i) same,
        unlock-add_one (w.shared.locks i) (free i),
      ),
    )

    -- With a well-formed log, and while no lock is held, `try_commit` returns. It commits exactly if
    -- the version it takes is the one after its start, or no location that it read has a version
    -- newer than the start. What it leaves is `Tried`: a committed transaction's writes are in the
    -- data with the new version, an aborted one's are not, and no lock stays held.
    pub try_commit-Tried :
        (w' : World m V) × (try_commit srt w
          ≡ ok (decides w.manager.rv (next_version w) w.shared.locks (vec w), w'))
        × Tried (decides w.manager.rv (next_version w) w.shared.locks (vec w)) w w'
    unfolding try_commit stable_sort
    try_commit-Tried =
        let mine = mark_owner-IsMine w.manager.me sorted in
        let (locks₁, mem₁, e₁, dec) =
          commit_locked-Decided w.manager.me w.manager.rv (next_version w) w.manager.log.store
            marked (taken w.shared.locks held) w.shared.mem mine marked-IsBacked
            (mark_owner-IsDistinct w.manager.me sorted (perm.distinct h.distinct)) in
        let (ls', locks₂, e₂, same, unl) =
          release-unlocks (firsts [] sorted) marked locks₁
            (is_in-mark_owner w.manager.me sorted (firsts [] sorted) (firsts-is_in [] sorted)) in
        let acq : acquire w.manager.me [] sorted w.shared.locks
            ≡ ok (marked, firsts [] sorted, taken w.shared.locks held) =
          acquire-taken w.manager.me w.shared.locks [] sorted free
            (All-perm IsUnowned (srt.sort-perm (λ (l : Location). l.addr) (vec w)) h.unowned) in
        let sound = decides-marked (next_version w) in
        let (contents, locks) =
          settled (decides w.manager.rv (next_version w) w.shared.locks (vec w)) locks₁ mem₁ locks₂
            (subst
              (λ d.
                Decided d (next_version w) w.manager.log.store marked (taken w.shared.locks held)
                  w.shared.mem locks₁ mem₁)
              sound dec)
            unl in
        let w' : World m V = record {
          shared = record { clock = (incr_version w.shared.clock).0; locks = locks₂; mem = mem₁ };
          manager = record (w.manager) {
            log = record (w.manager.log) { l = record { vec = ls'; map = w.manager.log.l.map } };
          };
        } in
        (
          w',
          rw (acq, e₁, e₂) (ap (λ d. ok (d, w')) sound),
          record {
            clock = refl;
            contents = contents;
            locks = locks;
            me = refl;
            state = refl;
            backed = record {
              entries = same.entries marked-IsBacked.entries;
              backed = λ p. omega (arith, same.owned p, marked-IsBacked.backed p);
            };
          },
        )
