-- ===== src/Tests/Accounts.antt =====
-- The theorems on the bank at concrete inputs. Amounts are larger by 2 ^ 31.
use tl2_cpp.Common.{
  ℕ, zero, suc, ◌+◌, ◌^◌, ◌<◌, ◌≡◌, refl, Bool, true, false, none, some, List, [], ◌∷◌, ◌==◌, arith,
  length, update, eq_of_==, ==_refl,
}
use tl2_cpp.Common.Res.{Res, ok, ◌>>=◌}
use tl2_cpp.Heap.{Heap, node, null}
use tl2_cpp.Heap.Cells.{has}
use tl2_cpp.Lists.LinkedList.Cells.{Holds}
use tl2_cpp.Lists.HashMap.{Entry, HashMap}
use tl2_cpp.Lists.HashMap.Buckets.{IsMap}
use tl2_cpp.Lists.HashMap.Lookup.{lookup}
use tl2_cpp.Bank.Account.{Account}
use tl2_cpp.Bank.Transaction.{Accounts, transfer, execute}
use tl2_cpp.Bank.Books.{transfer-Posted}
use tl2_cpp.Bank.Logger.{check}
use tl2_cpp.Bank.Server.{Draw, spin}
use tl2_cpp.Bank.Server
use tl2_cpp.Bank.Logger
use tl2_cpp.Heap
use tl2_cpp.Bank.Account
use tl2_cpp.Bank.Transaction
use tl2_cpp.Lists.LinkedList
use tl2_cpp.Bank.Logger.Agreement.{check-agrees}

abbrev same : ℕ → ℕ → Bool
same a b = a == b

-- An account with 100 more than `n`.
abbrev account : ℕ → Account ℕ
account n = record { balance = 2 ^ 31 + 100 + n; name = n }

-- The names 1 and 2, both in the bucket 0, at 10 and 20.
abbrev hash : ℕ → ℕ
hash n = 0

abbrev bank_cells : ℕ → List (ℕ × Entry ℕ (Account ℕ))
bank_cells zero =
    (10, record { m_key = 1; item = account 1 }) ∷ (20, record { m_key = 2; item = account 2 }) ∷ []
bank_cells (suc i) = []

abbrev bank_heap : Heap (Entry ℕ (Account ℕ))
bank_heap =
    update (update (λ a. none) 20 (some (node (record { m_key = 2; item = account 2 }) null))) 10
      (some (node (record { m_key = 1; item = account 1 }) 20))

abbrev bank_map : HashMap
bank_map zero = record { head = 10; size = 2 }
bank_map (suc i) = record { head = null; size = 0 }

abbrev bank_IsMap : IsMap bank_map bank_heap bank_cells
bank_IsMap = record { lists = lists; separate = separate }
  where
    lists : (i : ℕ) → Holds (bank_map i) bank_heap (bank_cells i)
    lists zero = record {
      cells = (ground arith, refl, refl, (ground arith, refl, refl, tt));
      head = refl;
      size = refl;
    }
    lists (suc i) = record { cells = tt; head = refl; size = refl }

    separate :
        (i j a : ℕ) → (i == j) ≡ false → has a (bank_cells i) ≡ true → has a (bank_cells j) ≡ false
    separate zero zero a ne here = absurd (ground (arith, ne))
    separate zero (suc j) a ne here = refl
    separate (suc i) j a ne here = absurd (ground (arith, here))

abbrev bank_room : (i : ℕ) → suc (length (bank_cells i)) < 4
bank_room zero = omega arith
bank_room (suc i) = omega arith

-- From 2 to 1, an amount of 30.
transfer-Posted_example :
    (s' : Accounts ℕ) × (execute same hash
        (account 0)
        4
        3
        4
        (transfer 2 1 (2 ^ 31 + 30))
        (bank_map, bank_heap)
      ≡ ok s')
    × (cs' : ℕ → List (ℕ × Entry ℕ (Account ℕ))) × IsMap s'.0 s'.1 cs'
    × (lookup same hash (account 0) cs' 1 ≡ some (record { balance = 2 ^ 31 + 131; name = 1 }))
    × (lookup same hash (account 0) cs' 2 ≡ some (record { balance = 2 ^ 31 + 72; name = 2 }))
    × ((2 ^ 31 + 131) + (2 ^ 31 + 72) ≡ (2 ^ 31 + 101) + (2 ^ 31 + 102))
    × ((n : ℕ)
        → (2 == n) ≡ false
        → (1 == n) ≡ false
        → lookup same hash (account 0) cs' n ≡ lookup same hash (account 0) bank_cells n)
transfer-Posted_example =
    transfer-Posted same hash (account 0) eq_of_== ==_refl 4 3 4 2 1 (2 ^ 31 + 30) (2 ^ 31 + 131)
      (2 ^ 31 + 72) (account 1) (account 2) bank_map bank_heap bank_cells bank_IsMap bank_room
      (ground arith) refl (ground arith) refl refl refl refl refl (ground arith) (omega arith)
      (omega arith) (omega arith) (omega arith) (omega arith)

check-agrees_example :
    check same hash (account 0) 4 ((1, 2 ^ 31 + 101) ∷ (2, 7) ∷ []) (bank_map, bank_heap) ≡ ok false
check-agrees_example =
    check-agrees same hash (account 0) 4 ((1, 2 ^ 31 + 101) ∷ (2, 7) ∷ []) (bank_map, bank_heap)
      bank_cells bank_IsMap (λ i. omega (arith, bank_room i))

-- A name without an account: `Withdraw` opens one with the amount, the log has its negative.
abbrev stranger : Draw ℕ
stranger = record {
  choice = 1;
  name = 3;
  other_name = 3;
  amt = 2 ^ 31 + 30;
  first_node = 30;
  second_node = 40;
}

-- The check after one thread has run.
checked : Draw ℕ → Res Bool
checked d = do
  (ms, s) ← spin same hash (account 0) 9 (d ∷ []) ([], (bank_map, bank_heap))
  check same hash (account 0) 9 ms s

check_stranger : checked stranger ≡ ok false
unfolding checked spin Server.job tl2_cpp.Bank.Logger.log_withdraw tl2_cpp.Bank.Logger.assign
    tl2_cpp.Bank.Account.sub execute tl2_cpp.Bank.Transaction.execute_withdraw
    tl2_cpp.Lists.HashMap.get tl2_cpp.Lists.LinkedList.get tl2_cpp.Lists.LinkedList.find
    tl2_cpp.Heap.at tl2_cpp.Lists.HashMap.set tl2_cpp.Lists.LinkedList.replace
    tl2_cpp.Lists.LinkedList.add tl2_cpp.Heap.set_next check tl2_cpp.Bank.Logger.check_loop
check_stranger = refl
