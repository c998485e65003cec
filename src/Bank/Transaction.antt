-- ===== src/Bank/Transaction.antt =====
-- examples/bank/transaction.h and transaction.cc. A body is what it does at once, as `atomically`
-- runs it; nested calls run in the outermost transaction. `eq` and `hash` are those of the names.
use tl2_cpp.Common.{ℕ, Bool, Option, none, some}
use tl2_cpp.Common.Res.{Res, ok, ◌>>=◌}
use tl2_cpp.Heap.{Heap}
use tl2_cpp.Lists.HashMap.{Entry, HashMap}
use tl2_cpp.Lists.HashMap
use tl2_cpp.Bank.Account.{Account, remove_balance, add_balance}

-- `Withdraw`, `Add` and `Transfer`
pub data Transaction (K : Type 0) : Type 0 where
  withdraw : (name : K) → (amt : ℕ) → Transaction K
  add : (name : K) → (amt : ℕ) → Transaction K
  transfer : (src dest : K) → (amt : ℕ) → Transaction K

-- `accounts`, with the memory of its nodes.
abbrev pub Accounts : Type 0 → Type 0
Accounts K = HashMap × Heap (Entry K (Account K))

module _ {K : Type 0} where
  -- The account that is written back.
  abbrev pub updated :
      (Account K → ℕ → Res (Account K)) → K → ℕ → Option (Account K) → Res (Account K)
  updated change name amt none = ok (record { balance = amt; name = name })
  updated change name amt (some a) = change a amt

module _ {K : Type 0} (eq : K → K → Bool) (hash : K → ℕ) (blank : Account K) where
  -- `p` is the address of the new node, if one is made.
  unfoldable pub execute_withdraw : ℕ → ℕ → K → ℕ → Accounts K → Res (Accounts K)
  execute_withdraw k p name amt (m, h) = do
    a ← HashMap.get eq hash blank k name m h
    upd ← updated remove_balance name amt a
    HashMap.set eq hash blank k p name upd m h

  unfoldable pub execute_add : ℕ → ℕ → K → ℕ → Accounts K → Res (Accounts K)
  execute_add k p name amt (m, h) = do
    a ← HashMap.get eq hash blank k name m h
    upd ← updated add_balance name amt a
    HashMap.set eq hash blank k p name upd m h

  unfoldable pub execute : ℕ → ℕ → ℕ → Transaction K → Accounts K → Res (Accounts K)
  execute k p q (withdraw name amt) s = execute_withdraw k p name amt s
  execute k p q (add name amt) s = execute_add k p name amt s
  execute k p q (transfer src dest amt) s = do
    s' ← execute_add k p dest amt s
    execute_withdraw k q src amt s'
