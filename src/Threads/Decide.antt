-- ===== src/Threads/Decide.antt =====
-- A transaction that passes its validation commits: what is true of its thread and of the memory is
-- kept, and it does to the data what its lambda does at once.
use tl2_cpp.Common.{
  ℕ, ◌≡◌, refl, ap, ◌∙◌, inl, inr, Bool, true, false, ◌||◌, Option, none, some, List, [], ◌∷◌,
  contains, All, arith, Option-cases,
}
use tl2_cpp.LockTable.{index}
use tl2_cpp.Tx.{exec}
use tl2_cpp.Threads.{Memory, Txn}
use tl2_cpp.Threads.Ghost.{Ghost, Global, Guar, Doomed, Valid, Validating, Writing, Agrees, over}
use tl2_cpp.Threads.Locks.{other-held}

abbrev is_some : {V : Type 0} → Option V → Bool
is_some none = false
is_some (some v) = true

-- The transaction with these staged values commits.
abbrev pub decided : {V : Type 0} → (ℕ → Option V) → Ghost V → Ghost V
decided staged g = record g {
  am = over staged g.am;
  due = λ a. is_some (staged a) || g.due a;
  unset = λ a. is_some (staged a) || g.unset a;
}

module _ {V A : Type 0} {i : ℕ} {m : Memory V} {g : Ghost V} {x : Txn V A} {wv : ℕ} {r : A}
    {held : List ℕ} (w : Global m g) (c : Validating i m g x wv r [] held) where
  read_held : (a : ℕ) → contains a x.log.locs ≡ true → contains (index a) held ≡ true
  read_held a there = elim (c.covered a there) [ inl more ↦ absurd (cc) | inr inside ↦ inside ]

  staged_held : (a : ℕ) (v : V) → x.log.staged a ≡ some v → contains (index a) held ≡ true
  staged_held a v e = read_held a (c.reading.write_logged a v e)

  refutes-Doomed : (a : ℕ) → x.log.was_read a ≡ true → Doomed m g x.rv a → ⊥
  refutes-Doomed a is_read (inl old) = elim (c.checked a is_read) [
    | inl more ↦ absurd (cc)
    | inr ok ↦ absurd (omega (arith, old, ok))
  ]
  refutes-Doomed a is_read (inr (b, v, u, e, st, lt)) =
      let inside : contains (index b) held ≡ true =
        ap (λ k. contains k held) e ∙ read_held a (c.reading.read_logged a is_read) in
      let no_write : g.due b ≡ false = c.quiet b inside in
      let write : g.due b ≡ true = w.unset_due b u in absurd (cc)

  still-Agrees : (seen : List (ℕ × V)) → All (Valid m g x.rv x.log) seen → Agrees g.am seen
  still-Agrees [] v = tt
  still-Agrees ((a, y) ∷ seen) ((is_read, inl same), vs) = (same, still-Agrees seen vs)
  still-Agrees ((a, y) ∷ seen) ((is_read, inr doomed), vs) =
      (absurd (refutes-Doomed a is_read doomed), still-Agrees seen vs)

  -- A transaction that passes its validation does to the data what its lambda does at once.
  pub decide-exec : exec x.body g.am ≡ inr (r, over x.log.staged g.am)
  unfolding exec
  decide-exec = c.reading.replay g.am (still-Agrees c.reading.seen c.reading.still)

  pub decide-Global : Global m (decided x.log.staged g)
  decide-Global = record {
    ver_clock = w.ver_clock;
    stamp_le = w.stamp_le;
    free = w.free;
    due_stamp = λ a due. elim (Option-cases (x.log.staged a)) [
      | inl unwritten ↦
          let (v, st, at) = w.due_stamp a (rw unwritten at due) in (v, st, rw unwritten at)
      | inr (v, e) ↦ (wv, c.stamped (index a) (staged_held a v e), inl (rw e refl))
    ];
    moved = λ a done. elim (Option-cases (x.log.staged a)) [
      | inl unwritten ↦ rw unwritten (w.moved a (rw unwritten at done))
      | inr (v, e) ↦ let write : true ≡ false = rw e at done in absurd (cc)
    ];
    unset_due = λ a u. elim (Option-cases (x.log.staged a)) [
      | inl unwritten ↦ rw unwritten (w.unset_due a (rw unwritten at u))
      | inr (v, e) ↦ rw e refl
    ];
  }

  pub decide-Guar : Guar i m m g (decided x.log.staged g)
  decide-Guar = record {
    clock_le = omega arith;
    ver_le = λ s. omega arith;
    owned = λ j s far e. e;
    not_given = λ j s far e. e;
    kept = λ j s far e. (refl, refl);
    kept_at = λ j a far e. elim (Option-cases (x.log.staged a)) [
      | inl unwritten ↦ (rw unwritten refl, rw unwritten refl, rw unwritten refl)
      | inr (v, st) ↦
          let mine = staged_held a v st in
          let not_mine = other-held held c.locks j (index a) far e in absurd (cc)
    ];
    late = λ s v e. inl e;
    set = λ b v u e. inl (ground (arith, u), e);
    changed = λ a. elim (Option-cases (x.log.staged a)) [
      | inl unwritten ↦ inl (rw unwritten refl)
      | inr (v, e) ↦ inr (wv, rw e refl, c.stamped (index a) (staged_held a v e))
    ];
  }

  pub decide-Writing : Writing i m (decided x.log.staged g) x wv x.log.locs held
  decide-Writing = record {
    locks = c.locks;
    stamped = c.stamped;
    pending = λ a v there e. (rw e refl, staged_held a v e);
    left = λ a inside due. elim (Option-cases (x.log.staged a)) [
      | inl unwritten ↦
          let no_write = c.quiet a inside in
          let write : g.due a ≡ true = rw unwritten at due in absurd (cc)
      | inr (v, e) ↦ (c.reading.write_logged a v e, (v, e))
    ];
  }
