-- ===== src/Threads/Clock.antt =====
-- How far the clock of the threads gets: how often a run raises it.
use tl2_cpp.Common.{ℕ, ◌+◌, ◌≤◌, Option, List, [], arith}
use tl2_cpp.Tx.{Tx}
use tl2_cpp.Threads.{
  Memory, Pc, locking, Move, start, note, own, fetch, put, throws, escapes, sort, owned, take,
  incr_next, incr_later, unread, valid, stale, validated, unwritten, set_version, move, written,
  release, leave, System, Step, pick, Run, begun, later,
}

module _ {V A : Type 0} where
  -- Whether the next move of a thread that stands there raises the clock: 1 if so.
  abbrev pub tick : Pc V A → ℕ
  tick (locking x r [] held) = 1
  tick _ = 0

  abbrev pub tick_of : {s s' : System V A} {e : Option (Tx V A × A)} → Step s e s' → ℕ
  tick_of {s} (pick i mv) = tick (s.pc i)

  -- How often the run raises the clock.
  unfoldable pub ticks : {s s' : System V A} {es : List (Tx V A × A)} → Run s es s' → ℕ
  ticks begun = 0
  ticks (later run step) = ticks run + tick_of step

  Move-clock :
      {i : ℕ} {m m' : Memory V} {e : Option (Tx V A × A)} {p p' : Pc V A}
      → Move i m p e m' p'
      → m'.clock ≤ m.clock + tick p
  Move-clock (incr_next e) = omega arith
  Move-clock (incr_later e) = omega arith
  Move-clock start = omega arith
  Move-clock (note free) = omega arith
  Move-clock (own e) = omega arith
  Move-clock (fetch e) = omega arith
  Move-clock put = omega arith
  Move-clock (throws e) = omega arith
  Move-clock escapes = omega arith
  Move-clock (sort asc same) = omega arith
  Move-clock (owned e) = omega arith
  Move-clock (take out free) = omega arith
  Move-clock (unread e) = omega arith
  Move-clock (valid e l) = omega arith
  Move-clock (stale e l) = omega arith
  Move-clock validated = omega arith
  Move-clock (unwritten e) = omega arith
  Move-clock (set_version e) = omega arith
  Move-clock move = omega arith
  Move-clock written = omega arith
  Move-clock release = omega arith
  Move-clock leave = omega arith

  Step-clock :
      {s s' : System V A} {e : Option (Tx V A × A)} (step : Step s e s')
      → s'.shared.clock ≤ s.shared.clock + tick_of step
  Step-clock (pick i mv) = Move-clock mv

  -- The clock has gone up by no more than the run has raised it.
  pub Run-clock :
      {s s' : System V A} {es : List (Tx V A × A)} (run : Run s es s')
      → s'.shared.clock ≤ s.shared.clock + ticks run
  unfolding ticks
  Run-clock begun = omega arith
  Run-clock (later run step) = omega (arith, Run-clock run, Step-clock step)
