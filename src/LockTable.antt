-- ===== src/LockTable.antt =====
-- tl2/hash_table.h: the table of version locks that every address is mapped to.
-- The table's size is a power of two, so `& mask` is the remainder by the size.
pub mod Order
use tl2_cpp.Common.{ℕ, ◌/◌, ◌%◌, ◌^◌}

-- `LOCKTABLE_SIZE`, `1 << 22`
abbrev pub locktable_size : ℕ
locktable_size = 2 ^ 22

-- The words of the locks, by index. The constructor starts each at 0.
abbrev pub LockTable : Type 0
LockTable = ℕ → ℕ

abbrev pub new_table : LockTable
new_table _ = 0

-- `operator[]`: `(addr >> 2) & mask`
unfoldable pub index : ℕ → ℕ
index addr = addr / 4 % locktable_size
