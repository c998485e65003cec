-- ===== src/Threads/Locks.antt =====
-- The moves of a thread that take a lock, raise the clock and give a lock back keep what is true of
-- it and of the memory.
use tl2_cpp.Common.{
  some-ne_none, ℕ, ◌+◌, ◌≡◌, ◌≢◌, refl, ap, sym, ◌∙◌, inl, inr, true, false, Option, none, some,
  List, ◌∷◌, ◌==◌, contains, arith, update, Bool-cases, eq_of_==, if◌then◌else◌,
}
use tl2_cpp.LockTable.{index}
use tl2_cpp.Threads.{Memory}
use tl2_cpp.Threads.Ghost.{Ghost, Global, Guar, Held, Quiet}

abbrev pub taken : {V : Type 0} → ℕ → ℕ → Memory V → Memory V
taken i s m = record m { owner = update m.owner s (some i) }

abbrev pub dropped : {V : Type 0} → ℕ → Memory V → Memory V
dropped s m = record m { owner = update m.owner s none }

abbrev pub raised : {V : Type 0} → Memory V → Memory V
raised m = record m { clock = m.clock + 1 }

-- The locks `held` get the stamp `w`.
abbrev pub stamped : {V : Type 0} → List ℕ → Option ℕ → Ghost V → Ghost V
stamped held w g = record g { stamp = λ s. if contains s held then w else g.stamp s }

-- A lock that is given back has no stamp.
abbrev pub cleared : {V : Type 0} → ℕ → Ghost V → Ghost V
cleared s g = record g { stamp = update g.stamp s none }

module _ {V : Type 0} {i : ℕ} {m : Memory V} {g : Ghost V} where
  pub Guar-refl : Guar i m m g g
  Guar-refl = record {
    clock_le = omega arith;
    ver_le = λ s. omega arith;
    owned = λ j s far e. e;
    not_given = λ j s far e. e;
    kept = λ j s far e. (refl, refl);
    kept_at = λ j a far e. (refl, refl, refl);
    late = λ s w e. inl e;
    set = λ b w u e. inl (u, e);
    changed = λ a. inl refl;
  }

module _ {V : Type 0} {i : ℕ} {m : Memory V} (held : List ℕ) (locks : Held i m held) where
  -- A lock of another thread is not among those that this one holds.
  pub other-held : (j s : ℕ) → j ≢ i → m.owner s ≡ some j → contains s held ≡ false
  other-held j s far e = elim (Bool-cases (contains s held)) [
    | inl mine ↦ let same : m.owner s ≡ some i = locks.only s mine in absurd (far (cc))
    | inr not_mine ↦ not_mine
  ]

  pub take-Held : (s : ℕ) → contains s held ≡ false → Held i (taken i s m) (s ∷ held)
  take-Held s out = record {
    all = λ t e. elim (Bool-cases (s == t)) [
      | inl here ↦ ground (arith, here)
      | inr there ↦ ground (arith, there, locks.all t (rw there at e))
    ];
    only = λ t e. elim (Bool-cases (s == t)) [
      | inl here ↦ rw here refl
      | inr there ↦ rw there (locks.only t (ground (arith, there, e)))
    ];
    distinct = (out, locks.distinct);
  }

module _ {V : Type 0} {m : Memory V} {g : Ghost V} (i s : ℕ) (free : m.owner s ≡ none) where
  pub take-Global : Global m g → Global (taken i s m) g
  take-Global w = record {
    ver_clock = w.ver_clock;
    stamp_le = w.stamp_le;
    free = λ t e. elim (Bool-cases (s == t)) [
      | inl here ↦ absurd (some-ne_none (rw here at e))
      | inr there ↦ w.free t (rw there at e)
    ];
    due_stamp = w.due_stamp;
    moved = w.moved;
    unset_due = w.unset_due;
  }

  pub take-Guar : Guar i m (taken i s m) g g
  take-Guar = record {
    clock_le = omega arith;
    ver_le = λ s. omega arith;
    owned = λ j t far e. elim (Bool-cases (s == t)) [
      | inl here ↦
          let unheld : m.owner t ≡ none = ap m.owner (sym (eq_of_== s t here)) ∙ free in
          absurd (some-ne_none (sym e ∙ unheld))
      | inr there ↦ rw there e
    ];
    not_given = λ j t far e. elim (Bool-cases (s == t)) [
      | inl here ↦ let mine : some i ≡ some j = rw here at e in absurd (far (cc))
      | inr there ↦ rw there at e
    ];
    kept = λ j s far e. (refl, refl);
    kept_at = λ j a far e. (refl, refl, refl);
    late = λ s w e. inl e;
    set = λ b w u e. inl (u, e);
    changed = λ a. inl refl;
  }

module _ {V : Type 0} {i : ℕ} {m : Memory V} {g : Ghost V} (held : List ℕ)
    (locks : Held i m held) where
  module _ (unstamped : (s : ℕ) → contains s held ≡ true → g.stamp s ≡ none) where
    no_due : Global m g → (a : ℕ) → g.due a ≡ true → contains (index a) held ≡ false
    no_due w a due = elim (Bool-cases (contains (index a) held)) [
      | inl mine ↦
          let (v, st, at) = w.due_stamp a due in
          let bare : g.stamp (index a) ≡ none = unstamped (index a) mine in absurd (cc)
      | inr not_mine ↦ not_mine
    ]

    pub incr-Quiet : Global m g → Quiet (stamped held (some (m.clock + 1)) g) held
    incr-Quiet w a mine = elim (Bool-cases (g.due a)) [
      | inl due ↦ let out = no_due w a due in absurd (cc)
      | inr not_due ↦ not_due
    ]

    pub incr-Global : Global m g → Global (raised m) (stamped held (some (m.clock + 1)) g)
    incr-Global w = record {
      ver_clock = λ s. omega (arith, w.ver_clock s);
      stamp_le = λ s v e. elim (Bool-cases (contains s held)) [
        | inl mine ↦
            let same : some (m.clock + 1) ≡ some v = rw mine at e in
            let at : m.clock + 1 ≡ v = cc in (omega (arith, at), omega (arith, at, w.ver_clock s))
        | inr not_mine ↦ let (le, lo) = w.stamp_le s v (rw not_mine at e) in (omega (arith, le), lo)
      ];
      free = λ s e. elim (Bool-cases (contains s held)) [
        | inl mine ↦ let same : m.owner s ≡ some i = locks.only s mine in absurd (cc)
        | inr not_mine ↦ rw not_mine (w.free s e)
      ];
      due_stamp = λ a due. let (v, st, at) = w.due_stamp a due in (v, rw (no_due w a due) st, at);
      moved = w.moved;
      unset_due = w.unset_due;
    }

    pub incr-Guar : Global m g → Guar i m (raised m) g (stamped held (some (m.clock + 1)) g)
    incr-Guar w = record {
      clock_le = omega arith;
      ver_le = λ s. omega arith;
      owned = λ j s far e. e;
      not_given = λ j s far e. e;
      kept = λ j s far e. (rw (other-held held locks j s far e) refl, refl);
      kept_at = λ j a far e. (refl, refl, refl);
      late = λ s v e. elim (Bool-cases (contains s held)) [
        | inl mine ↦
            let same : some (m.clock + 1) ≡ some v = rw mine at e in
            let at : m.clock + 1 ≡ v = cc in inr (omega (arith, at))
        | inr not_mine ↦ inl (rw not_mine at e)
      ];
      set = λ b v u e. inl (u, rw (no_due w b (w.unset_due b u)) e);
      changed = λ a. inl refl;
    }

module _ {V : Type 0} {i : ℕ} {m : Memory V} {g : Ghost V} (s : ℕ) (held : List ℕ)
    (locks : Held i m (s ∷ held)) (quiet : Quiet g (s ∷ held)) where
  not_due : Global m g → (a : ℕ) → g.due a ≡ true → (s == index a) ≡ false
  not_due w a due = elim (Bool-cases (s == index a)) [
    | inl here ↦ let still : g.due a ≡ false = quiet a (ground (arith, here)) in absurd (cc)
    | inr there ↦ there
  ]

  pub release-Global : Global m g → Global (dropped s m) (cleared s g)
  release-Global w = record {
    ver_clock = w.ver_clock;
    stamp_le = λ t v e. elim (Bool-cases (s == t)) [
      | inl here ↦ absurd (some-ne_none (sym (rw here at e)))
      | inr there ↦ w.stamp_le t v (rw there at e)
    ];
    free = λ t e. elim (Bool-cases (s == t)) [
      | inl here ↦ rw here refl
      | inr there ↦ rw there (w.free t (rw there at e))
    ];
    due_stamp = λ a due. let (v, st, at) = w.due_stamp a due in (v, rw (not_due w a due) st, at);
    moved = w.moved;
    unset_due = w.unset_due;
  }

  pub release-Guar : Global m g → Guar i m (dropped s m) g (cleared s g)
  release-Guar w = record {
    clock_le = omega arith;
    ver_le = λ s. omega arith;
    owned = λ j t far e. rw (apart j t far e) e;
    not_given = λ j t far e. elim (Bool-cases (s == t)) [
      | inl here ↦ absurd (some-ne_none (sym (rw here at e)))
      | inr there ↦ rw there at e
    ];
    kept = λ j t far e. (rw (apart j t far e) refl, refl);
    kept_at = λ j a far e. (refl, refl, refl);
    late = λ t v e. elim (Bool-cases (s == t)) [
      | inl here ↦ absurd (some-ne_none (sym (rw here at e)))
      | inr there ↦ inl (rw there at e)
    ];
    set = λ b v u e. inl (u, rw (not_due w b (w.unset_due b u)) e);
    changed = λ a. inl refl;
  }
    where
      apart : (j t : ℕ) → j ≢ i → m.owner t ≡ some j → (s == t) ≡ false
      apart j t far e = elim (Bool-cases (s == t)) [
        | inl here ↦
            let mine : m.owner t ≡ some i =
              ap m.owner (sym (eq_of_== s t here)) ∙ locks.only s (ground arith) in
            absurd (far (cc))
        | inr there ↦ there
      ]

module _ {V : Type 0} {i : ℕ} {m : Memory V} (s : ℕ) (held : List ℕ)
    (locks : Held i m (s ∷ held)) where
  pub release-Held : Held i (dropped s m) held
  release-Held = record {
    all = λ t e. elim (Bool-cases (s == t)) [
      | inl here ↦ absurd (some-ne_none (sym (rw here at e)))
      | inr there ↦ ground (arith, there, locks.all t (rw there at e))
    ];
    only = λ t e. elim (Bool-cases (s == t)) [
      | inl here ↦
          let out : contains t held ≡ false =
            ap (λ k. contains k held) (sym (eq_of_== s t here)) ∙ locks.distinct.0 in
          absurd (cc)
      | inr there ↦ rw there (locks.only t (ground (arith, e)))
    ];
    distinct = locks.distinct.1;
  }
