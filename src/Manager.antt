-- ===== src/Manager.antt =====
-- tl2/state.h, `TMan`: the transaction of one thread, and what all threads share.
-- `invalid_access` is the exception of `assert_in_transaction`; `failure` is one of the
-- transaction's own that is a `std::exception`, and `foreign` one that is not.
use tl2_cpp.Common.{ℕ, Bool, true, false}
use tl2_cpp.Common.Res
use tl2_cpp.Common.Res.{Res, ok, spins, fault, round}
use tl2_cpp.VersionLock
use tl2_cpp.LockTable.{LockTable}
use tl2_cpp.Log
use tl2_cpp.Log.{Log}
use tl2_cpp.LocationSet.Vendored.{AddrMap}

pub data State : Type 0 where
  abort running zombie : State

pub data Exception : Type 0 where
  invalid_access failure foreign : Exception

-- `global_clock`, the lock table, and the data of each `TVar` by its address.
pub record Shared (V : Type 0) : Type 0 where
  pub clock : ℕ
  pub locks : LockTable
  pub mem : ℕ → V

-- `thread_local manager`, with its `Context` and the thread's id.
pub record Manager (m : AddrMap) (V : Type 0) : Type 0 where
  pub me : ℕ
  pub state : State
  pub rv : ℕ
  pub log : Log m V

pub record World (m : AddrMap) (V : Type 0) : Type 0 where
  pub shared : Shared V
  pub manager : Manager m V

-- How a call ends: with a value or an exception, and the world then; or in a wait for ever; or in
-- undefined behaviour.
pub data Outcome (S A : Type 0) : Type 0 where
  done : A → S → Outcome S A
  thrown : Exception → S → Outcome S A
  spinning : Outcome S A
  undefined : Outcome S A

module _ {S A B : Type 0} where
  abbrev pub and_then : Outcome S A → (A → S → Outcome S B) → Outcome S B
  and_then (done a s) k = k a s
  and_then (thrown e s) k = thrown e s
  and_then spinning k = spinning
  and_then undefined k = undefined

  infixl 5 ◌>>=◌
  abbrev pub ◌>>=◌ : (S → Outcome S A) → (A → S → Outcome S B) → S → Outcome S B
  ◌>>=◌ p k s = and_then (p s) k

module _ {S : Type 0} where
  infixl 5 ◌>>◌
  abbrev pub ◌>>◌ : {B : Type 0} → (S → Outcome S (Unit {0})) → (S → Outcome S B) → S → Outcome S B
  ◌>>◌ p q s = and_then (p s) (λ _. q)

  abbrev pub pure : {A : Type 0} → A → S → Outcome S A
  pure a s = done a s

  abbrev pub get : S → Outcome S S
  get s = done s s

  abbrev pub put : S → S → Outcome S (Unit {0})
  put s _ = done tt s

  abbrev pub lift : {A : Type 0} → Res A → S → Outcome S A
  lift (ok a) s = done a s
  lift spins s = spinning
  lift fault s = undefined

module _ {m : AddrMap} {V : Type 0} where
  -- The argument is the word of the global clock.
  unfoldable pub start_transaction : ℕ → Manager m V → Res (Manager m V)
  start_transaction clock man = Res.◌>>=◌ (Log.clear m man.log) λ log'.
      Res.◌>>=◌ (round (VersionLock.get_version clock))
        λ v. ok (record man { state = running; rv = v; log = log' })

  unfoldable pub end_transaction : Manager m V → Res (Manager m V)
  end_transaction man =
      Res.◌>>=◌ (Log.clear m man.log) λ log'. ok (record man { state = zombie; rv = 0; log = log' })

  unfoldable pub in_transaction : Manager m V → Bool
  in_transaction man = elim man.state [ running ↦ true | _ ↦ false ]

  unfoldable pub assert_in_transaction : World m V → Outcome (World m V) (Unit {0})
  unfolding in_transaction
  assert_in_transaction w = elim (in_transaction w.manager) [
    | true ↦ done tt w
    | false ↦
        (do
          man ← lift (end_transaction w.manager)
          λ w'. thrown invalid_access (record w' { manager = man }))
          w
  ]
