-- ===== src/Atomic.antt =====
-- tl2/stm.h, `restore_args` and `atomically`.
pub mod Alone
pub mod Escaped
pub mod Others
pub mod Restored
pub mod Attempt
pub mod Serial
use tl2_cpp.Common.{ℕ, zero, suc, Bool, true, false, List, [], ◌∷◌, if◌then◌else◌}
use tl2_cpp.Common.Res.{Res}
use tl2_cpp.LocationSet.Vendored.{AddrMap, Sorter}
use tl2_cpp.Manager.{
  Shared, Manager, World, foreign, Outcome, done, thrown, spinning, undefined, ◌>>=◌, ◌>>◌, pure,
  get, put, lift, start_transaction, end_transaction, in_transaction,
}
use tl2_cpp.Stm.{try_commit}
use tl2_cpp.Tx.{Tx, run}

-- An argument of `atomically`: its value, and whether its type is a `TVar`.
pub record Arg (B : Type 0) : Type 0 where
  pub value : B
  pub is_t_var : Bool

module _ {B : Type 0} where
  unfoldable pub restore_arg : Arg B → Arg B → Arg B
  restore_arg saved arg = if arg.is_t_var then arg else record arg { value = saved.value }

  unfoldable pub restore_args : List (Arg B) → List (Arg B) → List (Arg B)
  restore_args [] args = args
  restore_args (s ∷ saved) [] = []
  restore_args (s ∷ saved) (a ∷ args) = restore_arg s a ∷ restore_args saved args

module _ {m : AddrMap} {V : Type 0} where
  -- `manager.start_transaction()`
  unfoldable pub start : World m V → Outcome (World m V) (Unit {0})
  start = do
    w ← get
    man ← lift (start_transaction w.shared.clock w.manager)
    put (record w { manager = man })

  -- `manager.end_transaction()`
  unfoldable pub finish : World m V → Outcome (World m V) (Unit {0})
  finish = do w ← get; man ← lift (end_transaction w.manager); put (record w { manager = man })

  -- What other threads do to the shared state.
  unfoldable pub interfere : (Shared V → Shared V) → World m V → Outcome (World m V) (Unit {0})
  interfere env w = done tt (record w { shared = env w.shared })

  -- The `catch` block, for a `std::exception`.
  unfoldable pub handle : {A : Type 0} → Outcome (World m V) A → Outcome (World m V) A
  handle (done a w) = done a w
  handle (thrown foreign w) = thrown foreign w
  handle (thrown e w) = (finish >> thrown e) w
  handle spinning = spinning
  handle undefined = undefined

module _ {m : AddrMap} (srt : Sorter) {V A B : Type 0} (trivial : Bool)
    (t : List (Arg B) → Tx V (A × List (Arg B))) (env : ℕ → Shared V → Shared V) where
  -- The `while` loop, for at most `k` attempts, from attempt `n` on. `env n` is what other threads
  -- do between the body of attempt `n` and its commit.
  unfoldable pub attempts :
      ℕ → ℕ → List (Arg B) → List (Arg B) → World m V → Outcome (World m V) (A × List (Arg B))
  attempts zero n saved args = λ _. spinning
  attempts (suc k) n saved args = do
    start
    (ret, args') ← run trivial (t args)
    interfere (env n)
    w ← get
    (committed, w') ← lift (try_commit srt w)
    put w'
    elim committed [
      | true ↦ do finish; pure (ret, args')
      | false ↦ attempts k (suc n) saved (restore_args saved args')
    ]

  -- A call inside a transaction is flattened into it.
  unfoldable pub atomically : ℕ → List (Arg B) → World m V → Outcome (World m V) (A × List (Arg B))
  atomically k args w = elim (in_transaction w.manager) [
    | true ↦ run trivial (t args) w
    | false ↦ handle (attempts k 0 args args w)
  ]
