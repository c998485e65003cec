-- ===== src/Perf.antt =====
-- The transactions of the timing programs perf/profile_counter.cc, perf/profile_swap.cc,
-- perf/profile_array.cc, .graphs/shared_counter/bench.cc and .graphs/batch_counter/bench.cc, by the
-- addresses of their variables.
pub mod Results
use tl2_cpp.Common.{ℕ, zero, suc, ◌+◌, ◌%◌, ◌^◌, Option, none, some, List, [], ◌∷◌, ◌++◌, update}
use mathlib.Core.Option
use tl2_cpp.Common.{inl, inr}
use tl2_cpp.Tx.{Tx, ret, load, store, exec}

-- perf/profile_counter.cc: a `uint`, which wraps.
abbrev pub count : ℕ → Tx ℕ Unit
count counter = load counter (λ val. store counter ((val + 1) % 2 ^ 32) (ret tt))

-- The transactions of one thread.
unfoldable pub count_thread : ℕ → ℕ → List (Tx ℕ Unit)
count_thread counter zero = []
count_thread counter (suc niters) = count counter ∷ count_thread counter niters

-- The last transaction, which reads the result.
abbrev pub total : ℕ → Tx ℕ ℕ
total counter = load counter (λ v. ret v)

-- Transactions one after the other, each at once.
unfoldable pub exec_all : List (Tx ℕ Unit) → (ℕ → ℕ) → Option (ℕ → ℕ)
exec_all [] mem = some mem
exec_all (t ∷ ts) mem = elim (exec t mem) [ inl _ ↦ none | inr (_, mem') ↦ exec_all ts mem' ]

-- `run`. The two threads do the same transactions, so every order of them is the same list.
unfoldable pub run : ℕ → ℕ → (ℕ → ℕ) → Option ℕ
run counter niters mem =
    elim (exec_all (count_thread counter niters ++ count_thread counter niters)
      (update mem counter 0)) [
        | none ↦ none
        | some mem' ↦ elim (exec (total counter) mem') [ inl _ ↦ none | inr (r, _) ↦ some r ]
      ]

-- .graphs/shared_counter/bench.cc: a `long long`, below its maximum.
abbrev pub reset : ℕ → Tx ℕ Unit
reset counter = store counter 0 (ret tt)

abbrev pub count_shared : ℕ → Tx ℕ Unit
count_shared counter = load counter (λ v. store counter (v + 1) (ret tt))

unfoldable pub count_shared_thread : ℕ → ℕ → List (Tx ℕ Unit)
count_shared_thread counter zero = []
count_shared_thread counter (suc ops) = count_shared counter ∷ count_shared_thread counter ops

-- .graphs/batch_counter/bench.cc: the loop on the local `v`, below the maximum of an `int`.
unfoldable pub bump : ℕ → ℕ → ℕ
bump zero v = v
bump (suc k) v = bump k (v + 1)

unfoldable pub count_batch : ℕ → Tx ℕ Unit
count_batch counter = load counter (λ v. store counter (bump 1000 v) (ret tt))

unfoldable pub count_batch_thread : ℕ → ℕ → List (Tx ℕ Unit)
count_batch_thread counter zero = []
count_batch_thread counter (suc iters) = count_batch counter ∷ count_batch_thread counter iters

-- perf/profile_swap.cc
unfoldable pub exchange : ℕ → ℕ → Tx ℕ Unit
exchange a b = load a (λ a_val. load b (λ b_val. store a b_val (store b a_val (ret tt))))

unfoldable pub exchange_thread : ℕ → ℕ → ℕ → List (Tx ℕ Unit)
exchange_thread a b zero = []
exchange_thread a b (suc n) = exchange a b ∷ exchange_thread a b n

-- perf/profile_array.cc: `n` elements are left, the next is at `at`; an `int` has four bytes.
unfoldable pub count_all : ℕ → ℕ → Tx ℕ Unit
count_all zero at = ret tt
count_all (suc n) at = load at (λ val. store at (val + 1) (count_all n (at + 4)))
