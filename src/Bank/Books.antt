-- ===== src/Bank/Books.antt =====
-- Transactions as changes of balances.
use tl2_cpp.Common.{
  ℕ, suc, ◌+◌, ◌-◌, ◌^◌, ◌<◌, ◌≤◌, ◌≡◌, ◌≢◌, refl, ap, ◌∙◌, Bool, true, false, none, some, List,
  ◌==◌, if◌then◌else◌, length, arith, Bool-cases, inl, inr,
}
use tl2_cpp.Common.Res.{ok}
use tl2_cpp.Heap.{Heap, null}
use tl2_cpp.Lists.HashMap.{Entry, HashMap}
use tl2_cpp.Lists.HashMap
use tl2_cpp.Lists.HashMap.Buckets.{IsMap}
use tl2_cpp.Lists.HashMap.Lookup.{lookup, get-lookup, set-lookup}
use tl2_cpp.Bank.Account.{Account, neg, sub, remove_balance, add_balance}
use tl2_cpp.Bank.Transaction.{transfer, Accounts, execute_withdraw, execute_add, execute}

sub-fits : (a b r : ℕ) → a + 2 ^ 31 ≡ r + b → r < 2 ^ 32 → sub a b ≡ ok r
unfolding sub
sub-fits a b r e small = ground (arith, e, small)

neg-fits : (a : ℕ) → a ≢ 0 → neg a ≡ ok (2 ^ 32 - a)
unfolding neg
neg-fits a ne = ground (arith, ne)

module _ {K : Type 0} where
  remove_balance-fits :
      (a : Account K) (amt r : ℕ)
      → a.balance + 2 ^ 31 ≡ r + amt
      → r < 2 ^ 32
      → remove_balance a amt ≡ ok (record { balance = r; name = a.name })
  unfolding remove_balance
  remove_balance-fits a amt r e small = rw (sub-fits a.balance amt r e small) refl

  add_balance-fits :
      (a : Account K) (amt r : ℕ)
      → amt ≢ 0
      → amt < 2 ^ 32
      → a.balance + amt ≡ r + 2 ^ 31
      → r < 2 ^ 32
      → add_balance a amt ≡ ok (record { balance = r; name = a.name })
  unfolding add_balance
  add_balance-fits a amt r ne bound e small =
      rw (neg-fits amt ne) (remove_balance-fits a (2 ^ 32 - amt) r (omega (arith, e, bound)) small)

module _ {K : Type 0} (eq : K → K → Bool) (hash : K → ℕ) (blank : Account K)
    (lawful : (a b : K) → eq a b ≡ true → a ≡ b) (same_key : (a : K) → eq a a ≡ true) where
  -- The accounts after one of them is written.
  pub record Posted (p : ℕ) (name : K) (upd : Account K) (h : Heap (Entry K (Account K)))
      (cs : ℕ → List (ℕ × Entry K (Account K))) (s' : Accounts K) : Type 0 where
    pub cells : ℕ → List (ℕ × Entry K (Account K))
    pub holds : IsMap s'.0 s'.1 cells
    pub room : (i : ℕ) → length (cells i) ≤ suc (length (cs i))
    pub free : (a : ℕ) → h a ≡ none → (a == p) ≡ false → s'.1 a ≡ none
    pub accounts :
        (q : K)
        → lookup eq hash blank cells q ≡ (if eq name q then some upd else lookup eq hash blank cs q)

  set-Posted :
      (k p : ℕ) (name : K) (upd : Account K) (m : HashMap) (h : Heap (Entry K (Account K)))
      (cs : ℕ → List (ℕ × Entry K (Account K)))
      → IsMap m h cs
      → ((i : ℕ) → length (cs i) < k)
      → p ≢ null
      → h p ≡ none
      → (s' : Accounts K) × (HashMap.set eq hash blank k p name upd m h ≡ ok s')
        × Posted p name upd h cs s'
  set-Posted k p name upd m h cs s enough ne fresh =
      let (m', h', cs', done, is, room, free, look) =
        set-lookup eq hash blank lawful same_key k p name upd m h cs s enough ne fresh in
      (
        (m', h'),
        done,
        record { cells = cs'; holds = is; room = room; free = free; accounts = look },
      )

  -- `Add` on an account that exists, if the sum is an `int`.
  add-Posted :
      (k p : ℕ) (name : K) (amt r : ℕ) (a : Account K) (m : HashMap)
      (h : Heap (Entry K (Account K))) (cs : ℕ → List (ℕ × Entry K (Account K)))
      → IsMap m h cs
      → ((i : ℕ) → length (cs i) < k)
      → p ≢ null
      → h p ≡ none
      → lookup eq hash blank cs name ≡ some a
      → add_balance a amt ≡ ok (record { balance = r; name = a.name })
      → (s' : Accounts K) × (execute_add eq hash blank k p name amt (m, h) ≡ ok s')
        × Posted p name (record { balance = r; name = a.name }) h cs s'
  unfolding execute_add
  add-Posted k p name amt r a m h cs s enough ne fresh there fits =
      let upd : Account K = record { balance = r; name = a.name } in
      let (s', done, post) = set-Posted k p name upd m h cs s enough ne fresh in
      (s', rw (get-lookup eq hash blank k name m h cs s enough) (rw there (rw fits done)), post)

  withdraw-Posted :
      (k p : ℕ) (name : K) (amt r : ℕ) (a : Account K) (m : HashMap)
      (h : Heap (Entry K (Account K))) (cs : ℕ → List (ℕ × Entry K (Account K)))
      → IsMap m h cs
      → ((i : ℕ) → length (cs i) < k)
      → p ≢ null
      → h p ≡ none
      → lookup eq hash blank cs name ≡ some a
      → remove_balance a amt ≡ ok (record { balance = r; name = a.name })
      → (s' : Accounts K) × (execute_withdraw eq hash blank k p name amt (m, h) ≡ ok s')
        × Posted p name (record { balance = r; name = a.name }) h cs s'
  unfolding execute_withdraw
  withdraw-Posted k p name amt r a m h cs s enough ne fresh there fits =
      let upd : Account K = record { balance = r; name = a.name } in
      let (s', done, post) = set-Posted k p name upd m h cs s enough ne fresh in
      (s', rw (get-lookup eq hash blank k name m h cs s enough) (rw there (rw fits done)), post)

  -- An unknown account is opened with the amount, by `Add` and by `Withdraw`.
  pub unknown-Posted :
      (k p : ℕ) (name : K) (amt : ℕ) (m : HashMap) (h : Heap (Entry K (Account K)))
      (cs : ℕ → List (ℕ × Entry K (Account K)))
      → IsMap m h cs
      → ((i : ℕ) → length (cs i) < k)
      → p ≢ null
      → h p ≡ none
      → lookup eq hash blank cs name ≡ none
      → (s' : Accounts K) × (execute_withdraw eq hash blank k p name amt (m, h) ≡ ok s')
        × (execute_add eq hash blank k p name amt (m, h) ≡ ok s')
        × Posted p name (record { balance = amt; name = name }) h cs s'
  unfolding execute_withdraw execute_add
  unknown-Posted k p name amt m h cs s enough ne fresh there =
      let upd : Account K = record { balance = amt; name = name } in
      let (s', done, post) = set-Posted k p name upd m h cs s enough ne fresh in
      (
        s',
        rw (get-lookup eq hash blank k name m h cs s enough) (rw there done),
        rw (get-lookup eq hash blank k name m h cs s enough) (rw there done),
        post,
      )

  -- `Transfer` between two accounts that exist, with an amount other than INT_MIN and results that
  -- are `int`s: one has the amount more, the other the amount less, and all others are as before.
  pub transfer-Posted :
      (k p q : ℕ) (src dest : K) (amt x y : ℕ) (a b : Account K) (m : HashMap)
      (h : Heap (Entry K (Account K))) (cs : ℕ → List (ℕ × Entry K (Account K)))
      → IsMap m h cs
      → ((i : ℕ) → suc (length (cs i)) < k)
      → p ≢ null
      → h p ≡ none
      → q ≢ null
      → h q ≡ none
      → (q == p) ≡ false
      → eq dest src ≡ false
      → lookup eq hash blank cs dest ≡ some a
      → lookup eq hash blank cs src ≡ some b
      → amt ≢ 0
      → amt < 2 ^ 32
      → a.balance + amt ≡ x + 2 ^ 31
      → x < 2 ^ 32
      → b.balance + 2 ^ 31 ≡ y + amt
      → y < 2 ^ 32
      → (s' : Accounts K) × (execute eq hash blank k p q (transfer src dest amt) (m, h) ≡ ok s')
        × (cs' : ℕ → List (ℕ × Entry K (Account K))) × IsMap s'.0 s'.1 cs'
        × (lookup eq hash blank cs' dest ≡ some (record { balance = x; name = a.name }))
        × (lookup eq hash blank cs' src ≡ some (record { balance = y; name = b.name }))
        × (x + y ≡ a.balance + b.balance)
        × ((n : K)
            → eq src n ≡ false
            → eq dest n ≡ false
            → lookup eq hash blank cs' n ≡ lookup eq hash blank cs n)
  unfolding execute add_balance remove_balance
  transfer-Posted k p q src dest amt x y a b m h cs s enough ne fresh ne' fresh' two other there
        here nz small fits sx fy sy =
      let away : eq src dest ≡ false = elim (Bool-cases (eq src dest)) [
        | inl e ↦
            absurd (ground (arith, other, ap (λ c. eq dest c) (lawful src dest e) ∙ same_key dest))
        | inr n ↦ n
      ] in
      let added : add_balance a amt ≡ ok (record { balance = x; name = a.name }) =
        add_balance-fits a amt x nz small fits sx in
      let taken : remove_balance b amt ≡ ok (record { balance = y; name = b.name }) =
        remove_balance-fits b amt y fy sy in
      let (s₁, done₁, post₁) =
        add-Posted k p dest amt x a m h cs s (λ i. omega (arith, enough i)) ne fresh there added in
      let here₁ : lookup eq hash blank post₁.cells src ≡ some b =
        post₁.accounts src ∙ rw other here in
      let (s₂, done₂, post₂) =
        withdraw-Posted k q src amt y b s₁.0 s₁.1 post₁.cells post₁.holds
          (λ i. omega (arith, enough i, post₁.room i)) ne' (post₁.free q fresh' two) here₁ taken in
      (
        s₂,
        rw done₁ done₂,
        post₂.cells,
        post₂.holds,
        post₂.accounts dest ∙ rw away (post₁.accounts dest ∙ rw (same_key dest) refl),
        post₂.accounts src ∙ rw (same_key src) refl,
        omega (arith, fits, fy),
        λ n o₁ o₂. post₂.accounts n ∙ rw o₁ (post₁.accounts n ∙ rw o₂ refl),
      )
