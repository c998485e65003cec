-- ===== src/Threads/Counter.antt =====
-- The counter of perf/profile_counter.cc under several threads: no increment is lost.
use tl2_cpp.Common.{
  ℕ, ◌+◌, ◌%◌, ◌^◌, ◌<◌, ◌≡◌, ap, sym, ◌∙◌, List, [], ◌∷◌, All, length, arith, inr, update,
}
use tl2_cpp.LockTable.{index}
use tl2_cpp.Tx.{Tx, exec}
use tl2_cpp.Perf.{count}
use tl2_cpp.Threads.{System, Run, idle}
use tl2_cpp.Threads.Moves.{Serial}
use tl2_cpp.Threads.Serial.{IsInitial, Run-Serial}
use tl2_cpp.Threads.Held.{idle-free}
use tl2_cpp.Threads.Clock.{ticks}

count-value :
    (c : ℕ) (mem mem' : ℕ → ℕ) → exec (count c) mem ≡ inr (tt, mem') → mem' c ≡ (mem c + 1) % 2 ^ 32
unfolding exec
count-value c mem mem' e =
    let same : update mem c ((mem c + 1) % 2 ^ 32) ≡ mem' = cc in
    ap (λ f. f c) (sym same) ∙ ground arith

Serial-count :
    (c : ℕ) (es : List (Tx ℕ Unit × Unit)) (mem mem' : ℕ → ℕ)
    → All (λ e. e.0 ≡ count c) es
    → mem c < 2 ^ 32
    → Serial mem es mem'
    → mem' c ≡ (mem c + length es) % 2 ^ 32
unfolding Serial
Serial-count c [] mem mem' a lt s = ap (λ f. f c) s ∙ omega (arith, lt)
Serial-count c ((t, r) ∷ es) mem mem' a lt (mem₁, e, rest) =
    let at = count-value c mem mem₁ (sym (ap (λ u. exec u mem) a.0) ∙ e) in
    Serial-count c es mem₁ mem' a.1 (omega (arith, at)) rest ∙ omega (arith, at, lt)

-- Start with no thread in a transaction, no lock held and no version above the clock. When any
-- number of threads have run increments of the counter, interleaved in any way at single accesses,
-- have raised the clock, which wraps at 2 ^ 63, no further than below that, and none is in a
-- transaction any more, the counter has been raised by the number of increments that have committed.
pub Run-count :
    (c : ℕ) (s s' : System ℕ Unit) (es : List (Tx ℕ Unit × Unit))
    → IsInitial s
    → (run : Run s es s') → s.shared.clock + ticks run < 2 ^ 63
    → ((i : ℕ) → s'.pc i ≡ idle)
    → All (λ e. e.0 ≡ count c) es
    → s.shared.mem c < 2 ^ 32
    → s'.shared.mem c ≡ (s.shared.mem c + length es) % 2 ^ 32
Run-count c s s' es init run room rest all lt =
    let (mem, serial, same) = Run-Serial s s' es init run room in
    same c (idle-free s s' es init.idle_all init.free run rest (index c))
    ∙ Serial-count c es s.shared.mem mem all lt serial
