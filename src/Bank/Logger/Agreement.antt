-- ===== src/Bank/Logger/Agreement.antt =====
-- The log of the bank against its accounts.
use tl2_cpp.Common.{
  ℕ, ◌<◌, ◌≡◌, refl, ap, ◌∙◌, Bool, true, false, ◌&&◌, Option, List, [], ◌∷◌, ◌==◌, some, none,
  Bool-cases, inl, inr, if◌then◌else◌, length,
}
use tl2_cpp.Common.Res.{ok}
use tl2_cpp.Lists.HashMap.{Entry}
use tl2_cpp.Lists.HashMap.Buckets.{IsMap}
use tl2_cpp.Lists.HashMap.Lookup.{lookup, get-lookup}
use tl2_cpp.Bank.Account.{Account}
use tl2_cpp.Bank.Transaction.{Accounts}
use tl2_cpp.Bank.Logger.{Logger, check_loop, check, differs}

module _ {K : Type 0} where
  -- A name without an account agrees with any balance, an account with the one that it has.
  abbrev pub balance_is : Option (Account K) → ℕ → Bool
  balance_is none b = true
  balance_is (some a) b = a.balance == b

  -- Each logged name that has an account has the logged balance there.
  abbrev pub agrees : (K → Option (Account K)) → Logger K → Bool
  agrees books [] = true
  agrees books ((n, b) ∷ ms) = balance_is (books n) b && agrees books ms

  differs-balance_is :
      (o : Option (Account K)) (b : ℕ) (f r : Bool)
      → ((if differs o b then false else f) && r) ≡ (f && (balance_is o b && r))
  differs-balance_is none b f r = refl
  differs-balance_is (some a) b f r = elim (Bool-cases (a.balance == b)) [
    | inl e ↦ rw e refl
    | inr e ↦ rw e (shift f r)
  ]
    where
      shift : (f r : Bool) → (false && r) ≡ (f && (false && r))
      shift true r = refl
      shift false r = refl

module _ {K : Type 0} (eq : K → K → Bool) (hash : K → ℕ) (blank : Account K) where
  check_loop-agrees :
      (k : ℕ) (fine : Bool) (ms : Logger K) (s : Accounts K)
      (cs : ℕ → List (ℕ × Entry K (Account K)))
      → IsMap s.0 s.1 cs
      → ((i : ℕ) → length (cs i) < k)
      → check_loop eq hash blank k fine ms s ≡ ok (fine && agrees (lookup eq hash blank cs) ms)
  unfolding check_loop
  check_loop-agrees k fine [] s cs is enough = and_true fine
    where
      and_true : (b : Bool) → ok b ≡ ok (b && true)
      and_true true = refl
      and_true false = refl
  check_loop-agrees k fine ((n, b) ∷ ms) s cs is enough =
      rw (get-lookup eq hash blank k n s.0 s.1 cs is enough) (
        check_loop-agrees k (if differs (lookup eq hash blank cs n) b then false else fine) ms s cs
          is enough
        ∙ ap ok (
            differs-balance_is (lookup eq hash blank cs n) b fine
              (agrees (lookup eq hash blank cs) ms)))

  -- `check` answers whether each logged name that has an account has the logged balance there.
  pub check-agrees :
      (k : ℕ) (ms : Logger K) (s : Accounts K) (cs : ℕ → List (ℕ × Entry K (Account K)))
      → IsMap s.0 s.1 cs
      → ((i : ℕ) → length (cs i) < k)
      → check eq hash blank k ms s ≡ ok (agrees (lookup eq hash blank cs) ms)
  unfolding check
  check-agrees k ms s cs is enough = check_loop-agrees k true ms s cs is enough
