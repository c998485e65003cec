-- ===== src/Bank/Account.antt =====
-- examples/bank/account.h. An `int` is the number that is larger by 2 ^ 31, so INT_MIN is 0.
-- Overflow of an `int` is undefined.
use tl2_cpp.Common.{ℕ, ◌+◌, ◌-◌, ◌^◌, ◌==◌, if◌then◌else◌, ltb}
use tl2_cpp.Common.Res.{Res, ok, fault, ◌>>=◌}

pub record Account (K : Type 0) : Type 0 where
  pub balance : ℕ
  pub name : K

-- `-a`
unfoldable pub neg : ℕ → Res ℕ
neg a = if a == 0 then fault else ok (2 ^ 32 - a)

-- `a - b`
unfoldable pub sub : ℕ → ℕ → Res ℕ
sub a b =
    if ltb (a + 2 ^ 31) b
    then fault
    else if ltb (a + 2 ^ 31 - b) (2 ^ 32)
    then ok (a + 2 ^ 31 - b)
    else fault

-- `a + b`
unfoldable pub sum : ℕ → ℕ → Res ℕ
sum a b =
    if ltb (a + b) (2 ^ 31)
    then fault
    else if ltb (a + b - 2 ^ 31) (2 ^ 32)
    then ok (a + b - 2 ^ 31)
    else fault

module _ {K : Type 0} where
  unfoldable pub remove_balance : Account K → ℕ → Res (Account K)
  remove_balance a amt = do b ← sub a.balance amt; ok (record { balance = b; name = a.name })

  unfoldable pub add_balance : Account K → ℕ → Res (Account K)
  add_balance a amt = do n ← neg amt; remove_balance a n
