-- ===== src/Tests/Workloads.antt =====
-- The program that measures the lists, and the pool of blocks, at concrete inputs.
use tl2_cpp.Common.{
  ℕ, zero, suc, ◌+◌, ◌%◌, ◌*◌, ◌^◌, ◌≤◌, ◌≡◌, refl, none, some, List, [], ◌∷◌, ◌==◌, if◌then◌else◌,
  arith,
}
use tl2_cpp.Common.Res.{ok, fault, ◌>>=◌}
use tl2_cpp.Heap.{null}
use tl2_cpp.Lists.Sorted.{Entry}
use tl2_cpp.Lists.Sorted.Keys.{has_key}
use tl2_cpp.Lists.Sorted.Ends.{IsList}
use tl2_cpp.LocationSet.Entries.Owned.{owners}
use tl2_cpp.Policy.Pool.{Pool, IsAligned, clear, clear-blocks, clear-misaligned}
use tl2_cpp.Store.{alive}
use tl2_cpp.Location.{WriteVal}
use tl2_cpp.Workload.{Workload, Draw, prefill, rounds}
use tl2_cpp.Workload.Keys.{at_end, filled}
use tl2_cpp.Workload.Ordered.{Site, fresh_site, ordered, ordered-rounds}
use tl2_cpp.Tests.Core.{one_entry, one_cell, one_entry-IsBacked}

abbrev balanced : Workload
balanced = record { contains_pct = 34; add_pct = 33; remove_pct = 33 }

-- The key 1 is looked up, 5 is added, and 0 is removed.
abbrev draws : List Draw
draws =
    record { op = 10; key = 1 + 2 ^ 31 }
    ∷ record { op = 50; key = 5 + 2 ^ 31 }
    ∷ record { op = 99; key = 2 ^ 31 }
    ∷ []

-- A hash that is not the identity: 0 and 1 are filled in under other keys.
abbrev hash : ℕ → ℕ
hash x = 2 * x % 2 ^ 31 + 7

ordered-rounds_example :
    (s : Site) × (mid : List (ℕ × Entry ℕ)) × ((do
      s₁ ← prefill (ordered hash) 2 0 fresh_site
      rounds (ordered hash) balanced draws s₁)
      ≡ ok s)
    × IsList null s.list.head s.list.tail s.heap mid
    × ((k : ℕ) → has_key k mid ≡ at_end hash balanced k draws (filled hash 2 0 k))
ordered-rounds_example =
    ordered-rounds hash balanced 2 draws (λ i few. (omega arith, omega arith))
      ((omega arith, omega arith), ((omega arith, omega arith), ((omega arith, omega arith), tt)))

-- The block of the one object.
abbrev one_pool : Pool ℕ
one_pool = record { store = one_cell; blocks = λ p. if p == 0 then some (8, 16) else none }

-- The value has 8 bytes, and `max_align_t` the alignment 16.
abbrev eight : WriteVal → ℕ
eight w = 8

one_pool-IsAligned : IsAligned 16 eight one_entry one_pool
unfolding owners
one_pool-IsAligned zero i = refl
one_pool-IsAligned (suc p) i = absurd (ground (arith, i))

clear-blocks_example :
    (pool' : Pool ℕ) × (clear 16 eight one_entry one_pool ≡ ok pool')
    × ((p : ℕ) → alive p pool'.store + owners p one_entry ≡ alive p one_cell)
    × ((p : ℕ) → pool'.blocks p ≡ (if owners p one_entry == 0 then one_pool.blocks p else none))
clear-blocks_example =
    clear-blocks 16 eight one_entry one_pool one_entry-IsBacked one_pool-IsAligned

-- The block of an `int`.
abbrev int_pool : Pool ℕ
int_pool = record { store = one_cell; blocks = λ p. if p == 0 then some (4, 4) else none }

abbrev four : WriteVal → ℕ
four w = 4

one_entry-owned : 1 ≤ owners 0 one_entry
unfolding owners
one_entry-owned = omega arith

clear-misaligned_example : clear 16 four one_entry int_pool ≡ fault
clear-misaligned_example =
    clear-misaligned 16 four one_entry int_pool 0 4 4 one_entry-IsBacked one_entry-owned refl
      (λ e. omega (arith, e))
