-- ===== src/Tests/Threads.antt =====
-- Two threads that increment the counter at the address 4: the thread 1 reads it before the thread 0
-- commits, and gives up at its validation.
use tl2_cpp.Common.{
  ℕ, ◌+◌, ◌%◌, ◌^◌, ◌≡◌, ◌<◌, true, refl, Option, none, List, [], ◌∷◌, ◌++◌, update, arith,
  Bool-cases, inl, inr, ◌==◌,
}
use tl2_cpp.LockTable.{index}
use tl2_cpp.Tx.{Tx}
use tl2_cpp.Perf.{count}
use tl2_cpp.Threads.{
  Memory, Pc, idle, Move, start, note, fetch, put, sort, take, incr_next, incr_later, stale,
  validated, set_version, move, written, release, leave, System, pick, told, Run, begun, later,
}
use tl2_cpp.Threads.Moves.{Serial}
use tl2_cpp.Threads.Serial.{IsInitial, Run-Serial}
use tl2_cpp.Threads.Counter.{Run-count}
use tl2_cpp.Threads.Progress.{InWindow, busy, Can, Run-Can}
use tl2_cpp.Threads.Clock.{ticks}

abbrev at_rest : System ℕ Unit
at_rest = record {
  shared = record { clock = 0; ver = λ k. 0; owner = λ k. none; mem = λ a. 7 };
  pc = λ i. idle;
}

at_rest-IsInitial : IsInitial at_rest
at_rest-IsInitial = record { idle_all = λ i. refl; free = λ k. refl; ver_clock = λ k. omega arith }

abbrev Ran : Type 0
Ran = (s : System ℕ Unit) × (es : List (Tx ℕ Unit × Unit)) × Run at_rest es s

abbrev go :
    (r : Ran) (i : ℕ) {e : Option (Tx ℕ Unit × Unit)} {m : Memory ℕ} {p : Pc ℕ Unit}
    → Move i r.0.shared (r.0.pc i) e m p
    → Ran
go r i {e} {m} {p} mv =
    (record { shared = m; pc = update r.0.pc i p }, r.1 ++ told e, later r.2 (pick i mv))

abbrev both_started : Ran
both_started = go (go (at_rest, [], begun) 0 (start {t = count 4})) 1 (start {t = count 4})

abbrev both_read : Ran
both_read = go (go (go (go both_started 1 (note refl)) 1 (fetch refl)) 0 (note refl)) 0 (fetch refl)

abbrev zero_commits : Ran
unfolding index
zero_commits =
    go
      (go (go (go (go both_read 0 put) 0 (sort {todo = 4 ∷ []} tt (λ a. refl))) 0 (take refl refl))
        0 (incr_next refl))
      0 validated

abbrev zero_done : Ran
unfolding index
zero_done =
    go (go (go (go (go zero_commits 0 (set_version refl)) 0 move) 0 written) 0 release) 0 leave

-- The thread 1 has read 7, which is 8 now.
abbrev one_locks : Ran
unfolding index
one_locks = go (go (go zero_done 1 put) 1 (sort {todo = 4 ∷ []} tt (λ a. refl))) 1 (take refl refl)

abbrev one_fails : Ran
unfolding index
one_fails =
    go
      (go (go (go one_locks 1 (incr_later (λ e. omega (arith, e)))) 1 (stale refl (omega arith))) 1
        release)
      1 leave

-- Each of the two threads has raised the clock once.
few_ticks : at_rest.shared.clock + ticks one_fails.2 < 2 ^ 63
unfolding one_fails one_locks zero_done zero_commits both_read both_started ticks
few_ticks = omega arith

Run-Serial_example :
    (mem : ℕ → ℕ) × Serial (λ a. 7) ((count 4, tt) ∷ []) mem
    × ((a : ℕ) → one_fails.0.shared.owner (index a) ≡ none → one_fails.0.shared.mem a ≡ mem a)
unfolding one_fails
Run-Serial_example =
    Run-Serial at_rest one_fails.0 one_fails.1 at_rest-IsInitial one_fails.2 few_ticks

all_idle : (i : ℕ) → one_fails.0.pc i ≡ idle
unfolding one_fails
all_idle i = elim (Bool-cases (1 == i)) [
  | inl one ↦ rw one refl
  | inr more ↦ elim (Bool-cases (0 == i)) [
    | inl first ↦ rw (more, first) refl
    | inr rest ↦ rw (more, rest) refl
  ]
]

Run-count_example : one_fails.0.shared.mem 4 ≡ (7 + 1) % 2 ^ 32
unfolding one_fails
Run-count_example =
    Run-count 4 at_rest one_fails.0 one_fails.1 at_rest-IsInitial one_fails.2 few_ticks all_idle
      (refl, tt) (omega arith)

in_window : (j : ℕ) → InWindow 0 (one_locks.0.pc j)
unfolding one_locks
in_window j = elim (Bool-cases (1 == j)) [
  | inl one ↦ rw one (λ a at. ground (arith, at))
  | inr more ↦ elim (Bool-cases (0 == j)) [
    | inl first ↦ rw (more, first) tt
    | inr rest ↦ rw (more, rest) tt
  ]
]

one_busy : busy (one_locks.0.pc 1) ≡ true
unfolding one_locks
one_busy = refl

Run-Can_example : (k : ℕ) × Can k one_locks.0.shared (one_locks.0.pc k)
Run-Can_example =
    Run-Can 0 at_rest one_locks.0 one_locks.1 1 at_rest-IsInitial one_locks.2 in_window one_busy
