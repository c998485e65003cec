-- ===== src/Atomic/Alone.antt =====
-- `atomically` of tl2/stm.h while no other thread moves.
use tl2_cpp.Common.{
  ℕ, suc, ◌+◌, ◌%◌, ◌^◌, ◌<◌, ◌≡◌, refl, sym, ◌∙◌, ap, subst, Bool, true, false, inl, inr, List,
  ◌==◌, arith,
}
use tl2_cpp.Common.Res.{ok}
use tl2_cpp.VersionLock
use tl2_cpp.VersionLock.{is_locked, incr_version, pack}
use tl2_cpp.VersionLock.Pack.{incr_version-next}
use tl2_cpp.Log
use tl2_cpp.Log.Values.{new-IsLog, IsLog-IsBacked, new-values, clear-new}
use tl2_cpp.LocationSet.Entries.Owned.{IsBacked}
use tl2_cpp.LocationSet.Vendored.{AddrMap, Sorter}
use tl2_cpp.Manager.{
  Shared, World, Exception, invalid_access, failure, foreign, Outcome, done, thrown, running,
  zombie, start_transaction, end_transaction, in_transaction,
}
use tl2_cpp.TVar.Alone.{IsFree, IsRunning, seen, over}
use tl2_cpp.Tx.{Tx, Ending, exec}
use tl2_cpp.Tx.Runs.{Runs, run-exec}
use tl2_cpp.Stm.{try_commit}
use tl2_cpp.Stm.Commit.{decides}
use tl2_cpp.Stm.TryCommit.{Tried, next_version, try_commit-Tried, vec}
use tl2_cpp.Atomic.{Arg, start, finish, interfere, handle, attempts, atomically}

-- No lock is held, nor the clock's.
pub record IsOpen {V : Type 0} (s : Shared V) : Type 0 where
  pub free : IsFree s.locks
  pub clock : is_locked s.clock ≡ false

-- The global clock has room for one more version.
abbrev pub HasRoom : {V : Type 0} → Shared V → Type 0
HasRoom s = s.clock + 2 < 2 ^ 64

clock_next :
    (c rv : ℕ)
    → c + 2 < 2 ^ 64
    → rv ≡ VersionLock.unsafe_get_version c
    → ((incr_version c).1 == (rv + 1) % 2 ^ 64) ≡ true
unfolding VersionLock.unsafe_get_version VersionLock.incr_version
clock_next c rv room e = ground arith

is_locked-pack : (v : ℕ) → is_locked (pack v false) ≡ false
unfolding pack
is_locked-pack v = ground arith

module _ {m : AddrMap} {V : Type 0} where
  -- A thread between two transactions, or inside one: what its log has staged is its own.
  abbrev pub IsSound : World m V → Type 0
  IsSound w = IsBacked w.manager.log.l.vec w.manager.log.store

  -- At its start a transaction has an empty log, sees the data, and has noted the clock.
  pub start-IsRunning :
      (w : World m V)
      → IsSound w
      → IsOpen w.shared
      → (w' : World m V) × (start w ≡ done tt w')
        × IsRunning w'
        × (w'.shared ≡ w.shared)
        × (w'.manager.me ≡ w.manager.me)
        × (w'.manager.rv ≡ VersionLock.unsafe_get_version w.shared.clock)
        × ((mem : ℕ → V) (b : ℕ) → over w' mem b ≡ mem b)
  unfolding start start_transaction VersionLock.get_version VersionLock.unsafe_get_version
  start-IsRunning w sound o = (
    record w {
      manager = record (w.manager) {
        state = running;
        rv = VersionLock.unsafe_get_version w.shared.clock;
        log = Log.new m;
      };
    },
    rw (clear-new m w.manager.log sound, o.clock),
    record { state = refl; log = new-IsLog m; free = o.free },
    refl,
    refl,
    refl,
    λ mem b. ap (λ x. seen x (mem b)) (new-values m b),
  )

  -- At its end the manager is a zombie and its log is empty.
  pub finish-new :
      (w : World m V)
      → IsSound w
      → finish w
        ≡ done tt
            (record w { manager = record (w.manager) { state = zombie; rv = 0; log = Log.new m } })
  unfolding finish end_transaction
  finish-new w sound = rw (clear-new m w.manager.log sound)

  -- If the clock has not moved since the start, the next version is the one after `rv`.
  pub next_version-decides :
      (w : World m V)
      → HasRoom w.shared
      → w.manager.rv ≡ VersionLock.unsafe_get_version w.shared.clock
      → decides w.manager.rv (next_version w) w.shared.locks (vec w) ≡ true
  next_version-decides w room e = rw (clock_next w.shared.clock w.manager.rv room e)

  -- How a transaction that is over leaves the world: no lock held, the clock one further or as it
  -- was, the log empty.
  pub record IsOver (data' : ℕ → V) (ticks : ℕ) (w w' : World m V) : Type 0 where
    pub contents : (a : ℕ) → w'.shared.mem a ≡ data' a
    pub clock :
        VersionLock.unsafe_get_version w'.shared.clock
        ≡ VersionLock.unsafe_get_version w.shared.clock + ticks
    pub opened : IsOpen w'.shared
    pub me : w'.manager.me ≡ w.manager.me
    pub state : w'.manager.state ≡ zombie
    pub log : w'.manager.log ≡ Log.new m

module _ {m : AddrMap} {V : Type 0} where
  -- A commit leaves every lock free and the clock one version further.
  pub tried-IsOpen :
      (w w' : World m V) (d : Bool)
      → IsOpen w.shared
      → HasRoom w.shared
      → Tried d w w'
      → IsOpen w'.shared
        × (VersionLock.unsafe_get_version w'.shared.clock
            ≡ VersionLock.unsafe_get_version w.shared.clock + 1)
  tried-IsOpen w w' d o room tr =
      let (next, bit, vers) = incr_version-next w.shared.clock room in
      (
        record {
          free = λ i. ground (arith, tr.locks i, is_locked-pack (next_version w), o.free i);
          clock = rw tr.clock (bit ∙ o.clock);
        },
        rw tr.clock (vers ∙ next),
      )

module _ {m : AddrMap} {V : Type 0} where
  IsOver-thrown :
      (w w₂ : World m V)
      → w₂.shared ≡ w.shared
      → w₂.manager.me ≡ w.manager.me
      → IsOpen w.shared
      → IsOver w.shared.mem 0 w
          (record w₂ { manager = record (w₂.manager) { state = zombie; rv = 0; log = Log.new m } })
  IsOver-thrown w w₂ same me op = record {
    contents = λ a. ap (λ s. s.mem a) same;
    clock = ap (λ s. VersionLock.unsafe_get_version s.clock) same ∙ omega arith;
    opened = subst IsOpen (sym same) op;
    me = me;
    state = refl;
    log = refl;
  }

module _ {m : AddrMap} {V A : Type 0} where
  -- The exception has got out of the call, over the shared state `s`. For a `std::exception` the
  -- transaction is over; any other leaves the thread in it, with its log.
  abbrev pub Threw : Exception → Shared V → World m V → Outcome (World m V) A → Type 0
  Threw foreign s w out =
      (w' : World m V) × (out ≡ thrown foreign w')
      × (w'.shared ≡ s)
      × (w'.manager.me ≡ w.manager.me)
      × IsRunning w'
  Threw e s w out =
      (w' : World m V) × (out ≡ thrown e w')
      × (w'.shared ≡ s)
      × IsOver s.mem 0 (record w { shared = s }) w'

  -- What the `catch` block makes of an exception.
  pub handle-Threw :
      (e : Exception) (w w₂ : World m V) (out : Outcome (World m V) A)
      → out ≡ thrown e w₂
      → w₂.shared ≡ w.shared
      → w₂.manager.me ≡ w.manager.me
      → IsOpen w.shared
      → IsRunning w₂
      → Threw e w.shared w (handle out)
  unfolding handle
  handle-Threw foreign w w₂ out e same me op r = (w₂, rw e refl, same, me, r)
  handle-Threw failure w w₂ out e same me op r =
      let fin = finish-new w₂ (IsLog-IsBacked m r.log) in
      (_, rw (e, fin) refl, same, IsOver-thrown w w₂ same me op)
  handle-Threw invalid_access w w₂ out e same me op r =
      let fin = finish-new w₂ (IsLog-IsBacked m r.log) in
      (_, rw (e, fin) refl, same, IsOver-thrown w w₂ same me op)

-- Nothing happens on other threads.
abbrev pub quiet_env : {V : Type 0} → ℕ → Shared V → Shared V
quiet_env n s = s

module _ {m : AddrMap} (srt : Sorter) {V A B : Type 0} (trivial : Bool)
    (t : List (Arg B) → Tx V (A × List (Arg B))) where
  -- What `atomically` does if the body ends as `exec` says.
  abbrev pub Ends : Ending V (A × List (Arg B)) → ℕ → List (Arg B) → World m V → Type 0
  Ends (inr (r, mem)) k args w =
      (w' : World m V) × (atomically srt trivial t quiet_env k args w ≡ done r w')
      × IsOver mem 1 w w'
  Ends (inl e) k args w = Threw e w.shared w (atomically srt trivial t quiet_env k args w)

  -- With the clock as it was at the start, the commit succeeds.
  committed :
      (w : World m V)
      → IsRunning w
      → HasRoom w.shared
      → w.manager.rv ≡ VersionLock.unsafe_get_version w.shared.clock
      → (w' : World m V) × (try_commit srt w ≡ ok (true, w')) × Tried true w w'
  committed w r room rv =
      let (w', e, tr) = try_commit-Tried srt w r.log r.free in
      let sure = next_version-decides w room rv in
      (w', e ∙ ap (λ d. ok (d, w')) sure, subst (λ d. Tried d w w') sure tr)

  outcome :
      (k : ℕ) (args : List (Arg B)) (w w₁ : World m V) (o : Ending V (A × List (Arg B)))
      → in_transaction w.manager ≡ false
      → IsOpen w.shared
      → HasRoom w.shared
      → start w ≡ done tt w₁
      → w₁.shared ≡ w.shared
      → w₁.manager.rv ≡ VersionLock.unsafe_get_version w.shared.clock
      → w₁.manager.me ≡ w.manager.me
      → Runs trivial (t args) w₁ o
      → Ends o (suc k) args w
  unfolding atomically attempts interfere handle
  outcome k args w w₁ (inl e) out op room e₁ sh rv me (w₂, e₂, r₂, k₂) =
      rw (out, atomically)
        (handle-Threw e w w₂ (attempts srt trivial t quiet_env (suc k) 0 args args w)
          (rw (attempts, e₁, e₂) refl) (k₂.shared ∙ sh) (k₂.me ∙ me) op r₂)
  outcome k args w w₁ (inr ((r, args'), mem)) out op room e₁ sh rv me (w₂, e₂, r₂, k₂, v₂, s₂) =
      let same : w₂.shared ≡ w.shared = k₂.shared ∙ sh in
      let (w₃, e₃, tr) =
        committed w₂ r₂ (subst HasRoom (sym same) room)
          (k₂.rv ∙ rv ∙ ap (λ s. VersionLock.unsafe_get_version s.clock) (sym same)) in
      let (opened, tick) =
        tried-IsOpen w₂ w₃ true (subst IsOpen (sym same) op) (subst HasRoom (sym same) room) tr in
      (
        record w₃ { manager = record (w₃.manager) { state = zombie; rv = 0; log = Log.new m } },
        rw (out, atomically) (rw (e₁, e₂, e₃, finish-new w₃ tr.backed)),
        record {
          contents = λ a. tr.contents a ∙ v₂ a;
          clock = tick ∙ ap (λ s. VersionLock.unsafe_get_version s.clock + 1) same;
          opened = opened;
          me = tr.me ∙ k₂.me ∙ me;
          state = refl;
          log = refl;
        },
      )

  -- Outside a transaction, with at least one attempt allowed, no lock held, a version left, and each
  -- entry of the log with a live object of its own: while no other thread moves, `atomically` runs
  -- its body as one indivisible step. It commits at the first attempt, with the result and the data
  -- that the body leaves when it runs at once; and if the body throws, the exception gets out and
  -- the shared state has not changed. After a `std::exception` the log is empty and the thread outside
  -- of a transaction; any other exception leaves the thread in its transaction, with its log.
  pub atomically-exec :
      (k : ℕ) (args : List (Arg B)) (w : World m V)
      → in_transaction w.manager ≡ false
      → IsSound w
      → IsOpen w.shared
      → HasRoom w.shared
      → Ends (exec (t args) w.shared.mem) (suc k) args w
  atomically-exec k args w out sound o room =
      let (w₁, e₁, r₁, sh₁, me₁, rv₁, v₁) = start-IsRunning w sound o in
      outcome k args w w₁ (exec (t args) w.shared.mem) out o room e₁ sh₁ rv₁ me₁ (
        run-exec trivial (t args) w₁ w.shared.mem r₁
          (λ b. v₁ w₁.shared.mem b ∙ ap (λ (sh : Shared V). sh.mem b) sh₁))
