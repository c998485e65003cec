-- ===== src/Tx.antt =====
-- The lambda that is passed to `atomically` of tl2/stm.h, as a tree of the accesses that it makes,
-- and what it does when it runs alone on the data.
pub mod Runs
use tl2_cpp.Common.{ℕ, ◌⊎◌, inl, inr, update}
use tl2_cpp.Common.{Bool}
use tl2_cpp.Manager.{World, Exception, Outcome, done, thrown, ◌>>=◌, ◌>>◌, pure}
use tl2_cpp.TVar
use tl2_cpp.LocationSet.Vendored.{AddrMap}

pub data Tx (V A : Type 0) : Type 0 where
  ret : A → Tx V A
  load : ℕ → (V → Tx V A) → Tx V A
  store : ℕ → V → Tx V A → Tx V A
  raise : Exception → Tx V A

-- How a transaction at once ends: with its exception, or with its result and the data after it.
abbrev pub Ending : Type 0 → Type 0 → Type 0
Ending V A = Exception ⊎ (A × (ℕ → V))

module _ {V A B : Type 0} where
  abbrev pub bind : Tx V A → (A → Tx V B) → Tx V B
  bind (ret a) k = k a
  bind (load a f) k = load a (λ v. bind (f v) k)
  bind (store a v t) k = store a v (bind t k)
  bind (raise e) k = raise e

module _ {V A : Type 0} where
  -- The transaction as one indivisible step: how it ends.
  unfoldable pub exec : Tx V A → (ℕ → V) → Ending V A
  exec (ret a) mem = inr (a, mem)
  exec (load a f) mem = exec (f (mem a)) mem
  exec (store a v t) mem = exec t (update mem a v)
  exec (raise e) mem = inl e

  -- The run of the lambda, each access through its `TVar`.
  unfoldable pub run : {m : AddrMap} → Bool → Tx V A → World m V → Outcome (World m V) A
  run trivial (ret a) = pure a
  run trivial (load a f) = TVar.load trivial a >>= λ v. run trivial (f v)
  run trivial (store a v t) = TVar.store a v >> run trivial t
  run trivial (raise e) = thrown e
