-- ===== src/Threads/Moves.antt =====
-- Each move that does not wrap the clock keeps what is true of the thread that makes it and of the
-- memory, and what it commits is the transaction at once.
use tl2_cpp.Common.{
  some-ne_none, ℕ, ◌+◌, ◌%◌, ◌^◌, ◌<◌, ◌≤◌, ◌≡◌, refl, ap, sym, subst, ◌∙◌, ◌⊎◌, inl, inr, true,
  false, Option, none, some, List, [], ◌∷◌, ◌++◌, ◌==◌, contains, arith, Bool-cases, eq_of_==,
}
use tl2_cpp.LockTable.{index}
use tl2_cpp.Tx.{Tx, exec}
use tl2_cpp.Threads.{
  Memory, Txn, Pc, idle, lost, running, fetching, locking, validating, writing, releasing, Move,
  start, note, own, fetch, put, throws, escapes, sort, owned, take, incr_next, incr_later, unread,
  valid, stale, validated, unwritten, set_version, move, written, release, leave, told,
}
use tl2_cpp.Threads.Ghost.{Ghost, Global, Guar, Checked, Locking, Fine, over}
use tl2_cpp.Threads.Stable.{Reading-stable}
use tl2_cpp.Threads.Clock.{tick}
use tl2_cpp.Threads.Reads
use tl2_cpp.Threads.Locks
use tl2_cpp.Threads.Decide
use tl2_cpp.Threads.Writes

one_less :
    (a b : ℕ) (todo held : List ℕ)
    → contains (index a) held ≡ true
    → (contains b (a ∷ todo) ≡ true) ⊎ (contains (index b) held ≡ true)
    → (contains b todo ≡ true) ⊎ (contains (index b) held ≡ true)
one_less a b todo held mine (inr inside) = inr inside
one_less a b todo held mine (inl more) = elim (Bool-cases (b == a)) [
  | inl at ↦ inr (ap (λ c. contains (index c) held) (eq_of_== b a at) ∙ mine)
  | inr there ↦ inl (ground (arith, there, more))
]

wider :
    (a b : ℕ) (todo held : List ℕ)
    → (contains b todo ≡ true) ⊎ (contains (index b) held ≡ true)
    → (contains b todo ≡ true) ⊎ (contains (index b) (index a ∷ held) ≡ true)
wider a b todo held (inl more) = inl more
wider a b todo held (inr inside) = inr (ground (arith, inside))

no_wrap : (v : ℕ) → v + 1 < 2 ^ 63 → (v + 1) % 2 ^ 63 ≡ v + 1
no_wrap v room = omega (arith, room)

fewer :
    {P : Type 0} (a b : ℕ) (todo : List ℕ)
    → (b == a) ≡ false
    → (contains b (a ∷ todo) ≡ true) ⊎ P
    → (contains b todo ≡ true) ⊎ P
fewer a b todo there (inl more) = inl (ground (arith, there, more))
fewer a b todo there (inr done) = inr done

module _ {V A : Type 0} where
  -- The transactions one after the other, each at once, with their results.
  unfoldable pub Serial : (ℕ → V) → List (Tx V A × A) → (ℕ → V) → Type 0
  Serial mem [] mem' = mem' ≡ mem
  Serial mem ((t, r) ∷ es) mem' =
      (mem₁ : ℕ → V) × (exec t mem ≡ inr (r, mem₁)) × Serial mem₁ es mem'

  pub Serial-append :
      (mem mem₁ mem₂ : ℕ → V) (es fs : List (Tx V A × A))
      → Serial mem es mem₁
      → Serial mem₁ fs mem₂
      → Serial mem (es ++ fs) mem₂
  unfolding Serial
  Serial-append mem mem₁ mem₂ [] fs e s = subst (λ f. Serial f fs mem₂) e s
  Serial-append mem mem₁ mem₂ ((t, r) ∷ es) fs (mem', e, rest) s =
      (mem', e, Serial-append mem' mem₁ mem₂ es fs rest s)

  -- What a move of the thread `i` leaves.
  pub record Moved (i : ℕ) (m m' : Memory V) (g : Ghost V) (e : Option (Tx V A × A)) (p' : Pc V A)
      : Type 0 where
    pub ghost : Ghost V
    pub global : Global m' ghost
    pub guar : Guar i m m' g ghost
    pub fine : Fine i m' ghost p'
    pub serial : Serial g.am (told e) ghost.am

  module _ {i : ℕ} {m : Memory V} {g : Ghost V} (w : Global m g) where
    -- A move of the thread alone.
    stay : (p' : Pc V A) → Fine i m g p' → Moved i m m g none p'
    unfolding Serial
    stay p' c = record { ghost = g; global = w; guar = Locks.Guar-refl; fine = c; serial = refl }

    incr-Moved :
        {x : Txn V A} {r : A} {held : List ℕ} (todo : List ℕ)
        → Checked (Locks.raised m) x todo
        → Locking i m g x r [] held
        → Moved i m (Locks.raised m) g none (validating x (m.clock + 1) r todo held)
    unfolding Serial
    incr-Moved {x} {r} {held} todo checked c =
        let quiet = Locks.incr-Quiet held c.locks c.stamped w in
        let guar = Locks.incr-Guar held c.locks c.stamped w in
        record {
          ghost = Locks.stamped held (some (m.clock + 1)) g;
          global = Locks.incr-Global held c.locks c.stamped w;
          guar = guar;
          fine = record {
            reading = Reading-stable guar x c.reading;
            locks = record { all = c.locks.all; only = c.locks.only; distinct = c.locks.distinct };
            covered = c.covered;
            stamped = λ s mine. rw mine refl;
            quiet = quiet;
            checked = checked;
          };
          serial = refl;
        }

    pub Move-Moved :
        {m' : Memory V} {e : Option (Tx V A × A)} {p p' : Pc V A}
        → Move i m p e m' p'
        → Fine i m g p
        → m.clock + tick p < 2 ^ 63
        → Moved i m m' g e p'
    unfolding Serial
    Move-Moved (start {t}) c room = stay (running _ t) (Reads.start-Running t c)
    Move-Moved (note {x} {a} {f} free) c room =
        stay (fetching _ a f) (Reads.note-Fetching f w free c)
    Move-Moved (own {x} {a} {f} {v} e) c room = stay (running x (f v)) (Reads.own-Running f v e c)
    Move-Moved (fetch {x} {a} {f} e) c room =
        stay (running x (f (m.mem a))) (Reads.fetch-Running f w e c)
    Move-Moved (put {x} {a} {v} {t}) c room = stay (running _ t) (Reads.put-Running v t c)
    Move-Moved (throws e) c room = stay idle c.locks
    Move-Moved escapes c room = stay lost c.locks
    Move-Moved (sort {x} {r} {todo} asc same) c room =
        stay (locking _ r todo []) (Reads.sort-Locking x r todo same c)
    Move-Moved (owned {x} {r} {a} {todo} {held} mine) c room =
        stay (locking x r todo held) (record {
          reading = c.reading;
          locks = c.locks;
          covered = λ b i. one_less a b todo held mine (c.covered b i);
          stamped = c.stamped;
        })
    Move-Moved (take {x} {r} {a} {todo} {held} out free) c room = record {
      ghost = g;
      global = Locks.take-Global i (index a) free w;
      guar = Locks.take-Guar i (index a) free;
      fine = record {
        reading = Reading-stable (Locks.take-Guar i (index a) free) x c.reading;
        locks = Locks.take-Held held c.locks (index a) out;
        covered = λ b i.
            one_less a b todo (index a ∷ held) (ground arith)
              (wider a b (a ∷ todo) held (c.covered b i));
        stamped = λ s mine. elim (Bool-cases (index a == s)) [
          | inl at ↦ subst (λ k. g.stamp k ≡ none) (eq_of_== (index a) s at) (w.free (index a) free)
          | inr there ↦ c.stamped s (ground (arith, there, mine))
        ];
      };
      serial = refl;
    }
    Move-Moved (incr_next {x} {r} {held} next) c room =
        subst (λ v. Moved i m (record m { clock = v }) g none (validating x v r [] held))
          (sym (no_wrap m.clock room))
          (incr-Moved []
            (λ a i. inr (omega (arith, next, no_wrap m.clock room, w.ver_clock (index a)))) c)
    Move-Moved (incr_later {x} {r} {held} later) c room =
        subst (λ v. Moved i m (record m { clock = v }) g none (validating x v r x.log.locs held))
          (sym (no_wrap m.clock room))
          (incr-Moved x.log.locs (λ a i. inl (c.reading.read_logged a i)) c)
    Move-Moved (unread {x} {wv} {r} {a} {todo} {held} no_read) c room =
        stay (validating x wv r todo held) (record {
          reading = c.reading;
          locks = c.locks;
          covered = c.covered;
          stamped = c.stamped;
          quiet = c.quiet;
          checked = λ b is_read. elim (Bool-cases (b == a)) [
            | inl at ↦
                let none_here : x.log.was_read b ≡ false =
                  ap x.log.was_read (eq_of_== b a at) ∙ no_read in
                absurd (cc)
            | inr there ↦ fewer a b todo there (c.checked b is_read)
          ];
        })
    Move-Moved (valid {x} {wv} {r} {a} {todo} {held} is_read fits) c room =
        stay (validating x wv r todo held) (record {
          reading = c.reading;
          locks = c.locks;
          covered = c.covered;
          stamped = c.stamped;
          quiet = c.quiet;
          checked = λ b is_read. elim (Bool-cases (b == a)) [
            | inl at ↦ inr (subst (λ k. m.ver (index k) ≤ x.rv) (sym (eq_of_== b a at)) fits)
            | inr there ↦ fewer a b todo there (c.checked b is_read)
          ];
        })
    Move-Moved (stale {held} is_read old) c room =
        stay (releasing held) (record { locks = c.locks; quiet = c.quiet })
    Move-Moved (validated {x} {wv} {r} {held}) c room = record {
      ghost = Decide.decided x.log.staged g;
      global = Decide.decide-Global w c;
      guar = Decide.decide-Guar w c;
      fine = Decide.decide-Writing w c;
      serial = (over x.log.staged g.am, Decide.decide-exec w c, refl);
    }
    Move-Moved (unwritten {x} {wv} {a} {todo} {held} no_write) c room =
        stay (writing x wv todo held) (record {
          locks = c.locks;
          stamped = c.stamped;
          pending = λ b v more e. c.pending b v (ground (arith, more)) e;
          left = λ b inside due.
              let (more, (v, e)) = c.left b inside due in
              elim (Bool-cases (b == a)) [
                | inl at ↦
                    let none_here : x.log.staged b ≡ none =
                      ap x.log.staged (eq_of_== b a at) ∙ no_write in
                    absurd (some-ne_none (sym e ∙ none_here))
                | inr there ↦ (ground (arith, there, more), (v, e))
              ];
        })
    Move-Moved (set_version {x} {wv} {a} {v} {todo} {held} e) c room = record {
      ghost = Writes.settled a g;
      global = Writes.set-Global w c e;
      guar = Writes.set-Guar w c e;
      fine = Writes.set-Moving w c e;
      serial = refl;
    }
    Move-Moved (move {x} {wv} {a} {v} {todo} {held}) c room = record {
      ghost = Writes.finished a g;
      global = Writes.move-Global w c;
      guar = Writes.move-Guar w c;
      fine = Writes.move-Writing w c;
      serial = refl;
    }
    Move-Moved (written {held}) c room = stay (releasing held) (record {
      locks = c.locks;
      quiet = λ a inside. elim (Bool-cases (g.due a)) [
        | inl due ↦ let more = (c.left a inside due).0 in absurd (cc)
        | inr not_due ↦ not_due
      ];
    })
    Move-Moved (release {s} {held}) c room = record {
      ghost = Locks.cleared s g;
      global = Locks.release-Global s held c.locks c.quiet w;
      guar = Locks.release-Guar s held c.locks c.quiet w;
      fine = record {
        locks = Locks.release-Held s held c.locks;
        quiet = λ a inside. c.quiet a (ground (arith, inside));
      };
      serial = refl;
    }
    Move-Moved leave c room = stay idle c.locks
