-- ===== src/Threads/Held.antt =====
-- Which locks a thread holds, by where it stands, in every run.
use tl2_cpp.Common.{
  some-ne_none, ℕ, ◌≡◌, ◌≢◌, refl, ap, sym, subst, ◌∙◌, inl, inr, true, false, Option, none, some,
  List, [], ◌==◌, arith, Bool-cases, Option-cases, eq_of_==,
}
use tl2_cpp.LockTable.{index}
use tl2_cpp.Tx.{Tx}
use tl2_cpp.Threads.{
  Memory, Pc, idle, locking, validating, writing, moving, releasing, Move, start, note, own, fetch,
  put, throws, escapes, sort, owned, take, incr_next, incr_later, unread, valid, stale, validated,
  unwritten, set_version, move, written, release, leave, System, pick, Run, begun, later,
}
use tl2_cpp.Threads.Ghost.{Held}
use tl2_cpp.Threads.Locks
use tl2_cpp.Threads.Locks.{taken, dropped}
use tl2_cpp.Threads.Writes.{Held-same}

module _ {V : Type 0} where
  -- The other threads hold the locks that they have held.
  record Apart (i : ℕ) (m m' : Memory V) : Type 0 where
    owned : (j s : ℕ) → j ≢ i → m.owner s ≡ some j → m'.owner s ≡ some j
    not_given : (j s : ℕ) → j ≢ i → m'.owner s ≡ some j → m.owner s ≡ some j

  Apart-same : {i : ℕ} {m : Memory V} (m' : Memory V) → m'.owner ≡ m.owner → Apart i m m'
  Apart-same m' e = record {
    owned = λ j s far own. ap (λ o. o s) e ∙ own;
    not_given = λ j s far own. sym (ap (λ o. o s) e) ∙ own;
  }

  Apart-take : {m : Memory V} (i s : ℕ) → m.owner s ≡ none → Apart i m (taken i s m)
  Apart-take {m} i s free = record {
    owned = λ j t far e. elim (Bool-cases (s == t)) [
      | inl here ↦
          let unheld : m.owner t ≡ none = ap m.owner (sym (eq_of_== s t here)) ∙ free in
          absurd (some-ne_none (sym e ∙ unheld))
      | inr there ↦ rw there e
    ];
    not_given = λ j t far e. elim (Bool-cases (s == t)) [
      | inl here ↦ let mine : some i ≡ some j = rw here at e in absurd (far (cc))
      | inr there ↦ rw there at e
    ];
  }

  Apart-release : {m : Memory V} (i s : ℕ) → m.owner s ≡ some i → Apart i m (dropped s m)
  Apart-release {m} i s mine = record {
    owned = λ j t far e. elim (Bool-cases (s == t)) [
      | inl here ↦
          let held : m.owner t ≡ some i = ap m.owner (sym (eq_of_== s t here)) ∙ mine in
          absurd (far (cc))
      | inr there ↦ rw there e
    ];
    not_given = λ j t far e. elim (Bool-cases (s == t)) [
      | inl here ↦ absurd (some-ne_none (sym (rw here at e)))
      | inr there ↦ rw there at e
    ];
  }

  Apart-Held :
      {i j : ℕ} {m m' : Memory V} {held : List ℕ}
      → j ≢ i
      → Apart i m m'
      → Held j m held
      → Held j m' held
  Apart-Held {j} far o h = record {
    all = λ s e. h.all s (o.not_given j s far e);
    only = λ s e. o.owned j s far (h.only s e);
    distinct = h.distinct;
  }

module _ {V A : Type 0} where
  -- The locks that a thread has taken which stands there.
  abbrev pub held_of : Pc V A → List ℕ
  held_of (locking x r todo held) = held
  held_of (validating x wv r todo held) = held
  held_of (writing x wv todo held) = held
  held_of (moving x wv a v todo held) = held
  held_of (releasing held) = held
  held_of _ = []

  Move-Held :
      {i : ℕ} {m m' : Memory V} {e : Option (Tx V A × A)} {p p' : Pc V A}
      → Move i m p e m' p'
      → Held i m (held_of p)
      → Held i m' (held_of p') × Apart i m m'
  Move-Held {m} start h = (h, Apart-same m refl)
  Move-Held {m} (note free) h = (h, Apart-same m refl)
  Move-Held {m} (own e) h = (h, Apart-same m refl)
  Move-Held {m} (fetch e) h = (h, Apart-same m refl)
  Move-Held {m} put h = (h, Apart-same m refl)
  Move-Held {m} (throws e) h = (h, Apart-same m refl)
  Move-Held {m} escapes h = (h, Apart-same m refl)
  Move-Held {m} (sort asc same) h = (h, Apart-same m refl)
  Move-Held {m} (owned mine) h = (h, Apart-same m refl)
  Move-Held {i} (take {a} {held} out free) h =
      (Locks.take-Held held h (index a) out, Apart-take i (index a) free)
  Move-Held {m'} (incr_next e) h = (Held-same m' refl h, Apart-same m' refl)
  Move-Held {m'} (incr_later e) h = (Held-same m' refl h, Apart-same m' refl)
  Move-Held {m} (unread e) h = (h, Apart-same m refl)
  Move-Held {m} (valid e l) h = (h, Apart-same m refl)
  Move-Held {m} (stale e l) h = (h, Apart-same m refl)
  Move-Held {m} validated h = (h, Apart-same m refl)
  Move-Held {m} (unwritten e) h = (h, Apart-same m refl)
  Move-Held {m'} (set_version e) h = (Held-same m' refl h, Apart-same m' refl)
  Move-Held {m'} move h = (Held-same m' refl h, Apart-same m' refl)
  Move-Held {m} written h = (h, Apart-same m refl)
  Move-Held {i} (release {s} {held}) h =
      (Locks.release-Held s held h, Apart-release i s (h.only s (ground arith)))
  Move-Held {m} leave h = (h, Apart-same m refl)

  -- Every thread holds just the locks that it has noted, in every run that begins with no thread in a
  -- transaction and no lock held.
  pub Run-Held :
      (s s' : System V A) (es : List (Tx V A × A))
      → ((i : ℕ) → s.pc i ≡ idle)
      → ((k : ℕ) → s.shared.owner k ≡ none)
      → Run s es s'
      → (i : ℕ) → Held i s'.shared (held_of (s'.pc i))
  Run-Held s _ _ rest free begun i = rw (rest i) (record {
    all = λ k e. absurd (some-ne_none (sym e ∙ free k));
    only = λ k e. absurd (cc);
    distinct = tt;
  })
  Run-Held s _ _ rest free (later {es} {e} {s₁} run (pick k {m} {p} mv)) i =
      let (mine, apart) = Move-Held mv (Run-Held s s₁ es rest free run k) in
      elim (Bool-cases (k == i)) [
        | inl same ↦ rw same (subst (λ j. Held j m (held_of p)) (eq_of_== k i same) mine)
        | inr other ↦ rw other (
            Apart-Held (λ e. absurd (ground (arith, other, e))) apart
              (Run-Held s s₁ es rest free run i))
      ]

  -- Where no thread is in a transaction, no lock is held.
  pub idle-free :
      (s s' : System V A) (es : List (Tx V A × A))
      → ((i : ℕ) → s.pc i ≡ idle)
      → ((k : ℕ) → s.shared.owner k ≡ none)
      → Run s es s'
      → ((i : ℕ) → s'.pc i ≡ idle)
      → (k : ℕ) → s'.shared.owner k ≡ none
  idle-free s s' es rest free run done k = elim (Option-cases (s'.shared.owner k)) [
    | inl unheld ↦ unheld
    | inr (j, mine) ↦
        let h : Held j s'.shared [] =
          subst (λ p. Held j s'.shared (held_of p)) (done j) (Run-Held s s' es rest free run j) in
        let out : false ≡ true = h.all k mine in absurd (cc)
  ]
