-- ===== src/Queues/StackBench.antt =====
-- .graphs/coarse_stack/bench.cc: the two kinds of rounds of its threads. A thread reads the loop's
-- variable in each of its rounds, by reference, so which kind a round is of is not determined; here
-- are rounds that are all of one kind. `p` is the address that `new` gives next.
pub mod Rounds
use tl2_cpp.Common.{ℕ, zero, suc, ◌+◌, ◌%◌, ◌==◌, if◌then◌else◌}
use tl2_cpp.Common.Res.{Res, ok, ◌>>=◌}
use tl2_cpp.Heap.{Heap}
use tl2_cpp.Queues.StackStm.{push, try_pop}

-- Rounds that push, where the variable is odd.
unfoldable pub pushes : ℕ → ℕ → ℕ → Heap ℕ → ℕ × Heap ℕ
pushes zero p top h = (top, h)
pushes (suc ops) p top h =
    let (top₁, h₁) = push p 2 top h in
    let (top₂, h₂) = push (suc p) 4 top₁ h₁ in pushes ops (suc (suc p)) top₂ h₂

-- Rounds that pop, where it is even.
unfoldable pub pops : ℕ → ℕ → Heap ℕ → Res ℕ
pops zero top h = ok top
pops (suc ops) top h = do (_, top₁) ← try_pop top h; (_, top₂) ← try_pop top₁ h; pops ops top₂ h
