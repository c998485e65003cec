-- ===== src/LockTable/Order.antt =====
-- tl2/hash_table.h: the order of addresses, in which tl2/lock_guard.h takes locks, and the order of
-- their locks.
use tl2_cpp.Common.{ℕ, ◌+◌, ◌/◌, ◌^◌, ◌≤◌, ◌<◌, ◌*◌, ◌≡◌, arith}
use tl2_cpp.LockTable.{index, locktable_size}

pub index-lt : (addr : ℕ) → index addr < locktable_size
unfolding index
index-lt addr = omega arith

-- Two addresses in the same aligned window of 2 ^ 24 bytes have their locks in address order.
pub index_mono_window : (a b : ℕ) → a / 2 ^ 24 ≡ b / 2 ^ 24 → a ≤ b → index a ≤ index b
unfolding index
index_mono_window a b w h = omega arith

-- Across windows the order is not kept: from every address whose lock is not the first, some later
-- address has an earlier lock.
pub index_wraps : (a : ℕ) → 0 < index a → (b : ℕ) × (a < b) × (index b < index a)
unfolding index
index_wraps a h = ((a / 2 ^ 24 + 1) * 2 ^ 24, omega arith, omega arith)

-- For any two locks there are two pairs of addresses, each pair in ascending order, such that the
-- first pair has the locks in one order and the second pair has them in the other.
pub index_both_orders :
    (i j : ℕ)
    → i < j
    → j < locktable_size
    → (a₁ a₂ b₁ b₂ : ℕ) × (a₁ < a₂)
      × (b₁ < b₂)
      × (index a₁ ≡ i)
      × (index a₂ ≡ j)
      × (index b₁ ≡ j)
      × (index b₂ ≡ i)
unfolding index
index_both_orders i j h k = (
  4 * i,
  4 * j,
  4 * j,
  2 ^ 24 + 4 * i,
  omega arith,
  omega arith,
  omega arith,
  omega arith,
  omega arith,
  omega arith,
)
