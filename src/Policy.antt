-- ===== src/Policy.antt =====
-- tl2/memory.h, `PerThreadPolicy`: what happens to the staged objects when a log is cleared.
pub mod Free
pub mod Pool
use tl2_cpp.Common.{List, [], ◌∷◌, if◌then◌else◌}
use tl2_cpp.Common.Res.{Res, ok, ◌>>=◌}
use tl2_cpp.Store.{Store, release}
use tl2_cpp.Location
use tl2_cpp.Location.{Location}

module _ {V : Type 0} where
  -- The loop: the destructor of each staged value runs.
  unfoldable pub free_all : List Location → Store V → Res (Store V)
  free_all [] st = ok st
  free_all (l ∷ ls) st = do
    st' ← if l.was_written then Location.free_heap l.write_val st else ok st
    free_all ls st'

  unfoldable pub clear : List Location → Store V → Res (Store V)
  clear ls st = do st' ← free_all ls st; ok (release st')
