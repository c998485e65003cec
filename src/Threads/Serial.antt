-- ===== src/Threads/Serial.antt =====
-- Every run of the threads that does not use up the versions is one in which the transactions that commit run one after the other.
use tl2_cpp.Common.{
  some-ne_none, ℕ, ◌+◌, ◌^◌, ◌<◌, ◌≤◌, ◌≡◌, ◌≢◌, refl, sym, subst, ◌∙◌, inl, inr, false, Option,
  none, List, [], ◌++◌, ◌==◌, arith, Bool-cases, eq_of_==,
}
use tl2_cpp.LockTable.{index}
use tl2_cpp.Tx.{Tx}
use tl2_cpp.Threads.{idle, System, Step, pick, told, Run, begun, later}
use tl2_cpp.Threads.Ghost.{Ghost, Global, Fine}
use tl2_cpp.Threads.Clock.{tick_of, ticks, Run-clock}
use tl2_cpp.Threads.Stable.{Fine-stable}
use tl2_cpp.Threads.Moves.{Serial, Serial-append, Move-Moved}

module _ {V A : Type 0} where
  -- No thread is in a transaction, no lock is held, and no version is above the clock.
  pub record IsInitial (s : System V A) : Type 0 where
    pub idle_all : (i : ℕ) → s.pc i ≡ idle
    pub free : (k : ℕ) → s.shared.owner k ≡ none
    pub ver_clock : (k : ℕ) → s.shared.ver k ≤ s.shared.clock

  record Inv (mem : ℕ → V) (s : System V A) (es : List (Tx V A × A)) : Type 0 where
    ghost : Ghost V
    global : Global s.shared ghost
    fine : (i : ℕ) → Fine i s.shared ghost (s.pc i)
    serial : Serial mem es ghost.am

  Inv-initial : (s : System V A) → IsInitial s → Inv s.shared.mem s []
  unfolding Serial
  Inv-initial s c = record {
    ghost = record { am = s.shared.mem; stamp = λ k. none; due = λ a. false; unset = λ a. false };
    global = record {
      ver_clock = c.ver_clock;
      stamp_le = λ k w e. absurd (cc);
      free = λ k e. refl;
      due_stamp = λ a e. absurd (cc);
      moved = λ a e. refl;
      unset_due = λ a e. absurd (cc);
    };
    fine = λ i. subst (Fine i s.shared _) (sym (c.idle_all i)) (record {
      all = λ k e. let none_held = c.free k in absurd (cc);
      only = λ k e. absurd (cc);
      distinct = tt;
    });
    serial = refl;
  }

  Inv-Step :
      (mem : ℕ → V) (s s' : System V A) (es : List (Tx V A × A)) {e : Option (Tx V A × A)}
      → Inv mem s es
      → (step : Step s e s') → s.shared.clock + tick_of step < 2 ^ 63
      → Inv mem s' (es ++ told e)
  Inv-Step mem s _ es {e} v (pick i {m = m'} {p = p'} mv) room =
      let d = Move-Moved v.global mv (v.fine i) room in
      record {
        ghost = d.ghost;
        global = d.global;
        fine = λ j. elim (Bool-cases (i == j)) [
          | inl same ↦ rw same (subst (λ k. Fine k m' d.ghost p') (eq_of_== i j same) d.fine)
          | inr other ↦ rw other (Fine-stable (far i j other) d.guar (s.pc j) (v.fine j))
        ];
        serial = Serial-append mem v.ghost.am d.ghost.am es (told e) v.serial d.serial;
      }
    where
      far : (i j : ℕ) → (i == j) ≡ false → j ≢ i
      far i j other e = absurd (ground (arith, other, e))

  Inv-Run :
      (s s' : System V A) (es : List (Tx V A × A))
      → IsInitial s
      → (run : Run s es s') → s.shared.clock + ticks run < 2 ^ 63
      → Inv s.shared.mem s' es
  unfolding ticks
  Inv-Run s _ _ c begun room = Inv-initial s c
  Inv-Run s s' _ c (later {es} {e} {s₁} run step) room =
      Inv-Step s.shared.mem s₁ s' es (Inv-Run s s₁ es c run (omega (arith, room))) step
        (omega (arith, room, Run-clock run))

  -- Start with no thread in a transaction, no lock held and no version above the clock, and let any
  -- number of threads run any transactions, interleaved in any way at single accesses, but raise the
  -- clock, which wraps at 2 ^ 63, no further than below that. Then the
  -- transactions that have committed have the results that they have one after the other, each at
  -- once, in the order in which their validations ended; and the data at each address whose lock is
  -- free are those that they leave so.
  pub Run-Serial :
      (s s' : System V A) (es : List (Tx V A × A))
      → IsInitial s
      → (run : Run s es s') → s.shared.clock + ticks run < 2 ^ 63
      → (mem : ℕ → V) × Serial s.shared.mem es mem
        × ((a : ℕ) → s'.shared.owner (index a) ≡ none → s'.shared.mem a ≡ mem a)
  Run-Serial s s' es c run room =
      let v = Inv-Run s s' es c run room in
      (
        v.ghost.am,
        v.serial,
        λ a free. v.global.moved a (elim (Bool-cases (v.ghost.due a)) [
          | inl due ↦
              let (w, st, at) = v.global.due_stamp a due in
              absurd (some-ne_none (sym st ∙ v.global.free (index a) free))
          | inr not_due ↦ not_due
        ]),
      )
