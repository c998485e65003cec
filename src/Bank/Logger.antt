-- ===== src/Bank/Logger.antt =====
-- `Logger` of examples/bank/server.h. Its `std::unordered_map` is an association list, whose order
-- the code does not rely on.
pub mod Agreement
use tl2_cpp.Common.{
  ℕ, ◌^◌, Bool, true, false, not, ◌&&◌, Option, none, some, List, [], ◌∷◌, ◌==◌, if◌then◌else◌,
}
use tl2_cpp.Common.Res.{Res, ok, ◌>>=◌}
use tl2_cpp.Lists.HashMap
use tl2_cpp.Bank.Account.{Account, sub, sum}
use tl2_cpp.Bank.Transaction.{Accounts}

-- `m_accounts`
abbrev pub Logger : Type 0 → Type 0
Logger K = List (K × ℕ)

module _ {K : Type 0} (eq : K → K → Bool) where
  -- A compound assignment to `m_accounts[name]`; a name that is not there begins at 0.
  unfoldable pub assign : (ℕ → Res ℕ) → K → Logger K → Res (Logger K)
  assign change name [] = do b ← change (2 ^ 31); ok ((name, b) ∷ [])
  assign change name ((n, b) ∷ ms) = do
    let here = (do b' ← change b; ok ((n, b') ∷ ms))
    let there = (do ms' ← assign change name ms; ok ((n, b) ∷ ms'))
    if eq n name then here else there

  unfoldable pub log_add : K → ℕ → Logger K → Res (Logger K)
  log_add name amt ms = assign (λ b. sum b amt) name ms

  unfoldable pub log_withdraw : K → ℕ → Logger K → Res (Logger K)
  log_withdraw name amt ms = assign (λ b. sub b amt) name ms

  unfoldable pub log_transfer : K → K → ℕ → Logger K → Res (Logger K)
  log_transfer src dest amt ms = do
    ms' ← assign (λ b. sub b amt) src ms
    assign (λ b. sum b amt) dest ms'

module _ {K : Type 0} where
  -- Whether an account has another balance than the log says.
  abbrev pub differs : Option (Account K) → ℕ → Bool
  differs none b = false
  differs (some a) b = not (a.balance == b)

module _ {K : Type 0} (eq : K → K → Bool) (hash : K → ℕ) (blank : Account K) where
  -- The loop of `check`.
  unfoldable pub check_loop : ℕ → Bool → Logger K → Accounts K → Res Bool
  check_loop k fine [] s = ok fine
  check_loop k fine ((n, b) ∷ ms) s = do
    a ← HashMap.get eq hash blank k n s.0 s.1
    check_loop k (if differs a b then false else fine) ms s

  unfoldable pub check : ℕ → Logger K → Accounts K → Res Bool
  check k ms s = check_loop k true ms s
