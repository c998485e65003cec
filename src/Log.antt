-- ===== src/Log.antt =====
-- tl2/log.h, `Log<LocationHashVectorSet, PerThreadPolicy>`: the locations that a transaction has
-- touched, and the buffer that holds what it has written.
pub mod Values
use tl2_cpp.Common.{ℕ, Option, []}
use tl2_cpp.Common.Res.{Res, ok, ◌>>=◌}
use tl2_cpp.LockTable.{LockTable}
use tl2_cpp.Store.{Store}
use tl2_cpp.Policy
use tl2_cpp.LocationSet.Vendored.{AddrMap}
use tl2_cpp.LocationSet.Hash
use tl2_cpp.LocationSet.Hash.{HashVectorSet}

pub record Log (m : AddrMap) (V : Type 0) : Type 0 where
  pub l : HashVectorSet m
  pub store : Store V

module _ (m : AddrMap) {V : Type 0} where
  -- `Log()`
  unfoldable pub new : Log m V
  new = record { l = Hash.new m; store = [] }

  -- The staged object for an address, if there is one.
  unfoldable pub value_at : ℕ → Log m V → Res (Option ℕ)
  value_at a log = Hash.find_write m a log.l

  unfoldable pub append_read : ℕ → LockTable → ℕ → Log m V → Res (Log m V)
  append_read me locks a log = do
    l' ← Hash.register_read m me locks a log.l
    ok (record log { l = l' })

  unfoldable pub append_write : ℕ → V → Log m V → Res (Log m V)
  append_write a v log = do
    (l', st') ← Hash.register_write m a v log.store log.l
    ok (record { l = l'; store = st' })

  unfoldable pub clear : Log m V → Res (Log m V)
  clear log = do
    st' ← Policy.clear log.l.vec log.store
    ok (record { l = Hash.clear m log.l; store = st' })
