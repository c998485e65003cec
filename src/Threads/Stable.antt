-- ===== src/Threads/Stable.antt =====
-- What is true of a thread stays true while another one moves.
use tl2_cpp.Common.{
  ℕ, ◌≤◌, ◌<◌, ◌≡◌, ◌≢◌, refl, sym, ◌∙◌, inl, inr, true, Option, some, List, [], ◌∷◌, contains, All,
  arith, subst,
}
use tl2_cpp.LockTable.{index}
use tl2_cpp.Tx.{Tx}
use tl2_cpp.Threads.{
  Memory, Txn, Pc, idle, lost, running, fetching, locking, validating, writing, moving, releasing,
}
use tl2_cpp.Threads.Ghost.{
  Ghost, Guar, Held, Doomed, Valid, Reading, Stamped, Quiet, Pending, Left, Moving, Fine,
}

module _ {V : Type 0} {i : ℕ} {m m' : Memory V} {g g' : Ghost V} (q : Guar i m m' g g') where
  module _ {A : Type 0} (x : Txn V A) where
    Doomed-stable : (a : ℕ) → Doomed m g x.rv a → Doomed m' g' x.rv a
    Doomed-stable a (inl old) = inl (omega (arith, old, q.ver_le (index a)))
    Doomed-stable a (inr (b, w, u, e, st, lt)) = elim (q.set b w u st) [
      | inl (u', st') ↦ inr (b, w, u', e, st', lt)
      | inr now ↦ inl (subst (λ k. x.rv < m'.ver k) e (omega (arith, lt, now)))
    ]

    noted-stable :
        x.rv ≤ m.clock
        → ((a w : ℕ) → x.log.was_read a ≡ true → g.stamp (index a) ≡ some w → x.rv < w)
        → (a w : ℕ) → x.log.was_read a ≡ true
        → g'.stamp (index a) ≡ some w
        → x.rv < w
    noted-stable le noted a w i e = elim (q.late (index a) w e) [
      | inl before ↦ noted a w i before
      | inr after ↦ omega (arith, le, after)
    ]

    Valid-stable :
        ((a w : ℕ) → x.log.was_read a ≡ true → g'.stamp (index a) ≡ some w → x.rv < w)
        → (seen : List (ℕ × V)) → All (Valid m g x.rv x.log) seen
        → All (Valid m' g' x.rv x.log) seen
    Valid-stable noted [] v = tt
    Valid-stable noted ((a, y) ∷ seen) ((is_read, inr doomed), v) =
        ((is_read, inr (Doomed-stable a doomed)), Valid-stable noted seen v)
    Valid-stable noted ((a, y) ∷ seen) ((is_read, inl same), v) = (
      elim (q.changed a) [
        | inl kept ↦ (is_read, inl (kept ∙ same))
        | inr (w, u, st) ↦ (is_read, inr (inr (a, w, u, refl, st, noted a w is_read st)))
      ],
      Valid-stable noted seen v,
    )

    pub Reading-stable : {rest : Tx V A} → Reading m g x rest → Reading m' g' x rest
    Reading-stable r =
        let noted' = noted-stable r.rv_clock r.noted in
        record {
          rv_clock = omega (arith, r.rv_clock, q.clock_le);
          seen = r.seen;
          replay = r.replay;
          noted = noted';
          still = Valid-stable noted' r.seen r.still;
          read_logged = r.read_logged;
          write_logged = r.write_logged;
        }

module _ {V : Type 0} {i j : ℕ} {m m' : Memory V} {g g' : Ghost V} (far : j ≢ i)
    (q : Guar i m m' g g') where
  Held-stable : {held : List ℕ} → Held j m held → Held j m' held
  Held-stable h = record {
    all = λ s e. h.all s (q.not_given j s far e);
    only = λ s i. q.owned j s far (h.only s i);
    distinct = h.distinct;
  }

  Stamped-stable :
      {held : List ℕ} {w : Option ℕ} → Held j m held → Stamped g w held → Stamped g' w held
  Stamped-stable h st s i = (q.kept j s far (h.only s i)).0 ∙ st s i

  due-same :
      {held : List ℕ}
      → Held j m held
      → (a : ℕ) → contains (index a) held ≡ true
      → (g'.due a ≡ g.due a) × (g'.am a ≡ g.am a) × (g'.unset a ≡ g.unset a)
  due-same h a i = q.kept_at j a far (h.only (index a) i)

  Quiet-stable : {held : List ℕ} → Held j m held → Quiet g held → Quiet g' held
  Quiet-stable h quiet a i = (due-same h a i).0 ∙ quiet a i

  module _ {A : Type 0} (x : Txn V A) where
    Pending-stable :
        (todo held : List ℕ) → Held j m held → Pending g x todo held → Pending g' x todo held
    Pending-stable todo held h p a v i e =
        let (at, inside) = p a v i e in ((due-same h a inside).1 ∙ at, inside)

    Left-stable : (todo held : List ℕ) → Held j m held → Left g x todo held → Left g' x todo held
    Left-stable todo held h l a i d = l a i (sym (due-same h a i).0 ∙ d)

module _ {V A : Type 0} {i j : ℕ} {m m' : Memory V} {g g' : Ghost V} (far : j ≢ i)
    (q : Guar i m m' g g') where
  pub Fine-stable : (p : Pc V A) → Fine j m g p → Fine j m' g' p
  Fine-stable idle c = Held-stable far q c
  Fine-stable lost c = Held-stable far q c
  Fine-stable (running x rest) c = record {
    reading = Reading-stable q x c.reading;
    locks = Held-stable far q c.locks;
  }
  Fine-stable (fetching x a f) c = record {
    reading = Reading-stable q x c.reading;
    locks = Held-stable far q c.locks;
    noted = c.noted;
  }
  Fine-stable (locking x r todo held) c = record {
    reading = Reading-stable q x c.reading;
    locks = Held-stable far q c.locks;
    covered = c.covered;
    stamped = Stamped-stable far q c.locks c.stamped;
  }
  Fine-stable (validating x wv r todo held) c = record {
    reading = Reading-stable q x c.reading;
    locks = Held-stable far q c.locks;
    covered = c.covered;
    stamped = Stamped-stable far q c.locks c.stamped;
    quiet = Quiet-stable far q c.locks c.quiet;
    checked = λ a i. elim (c.checked a i) [
      | inl left ↦ inl left
      | inr ok ↦ elim (c.covered a (c.reading.read_logged a i)) [
        | inl no_more ↦ absurd (cc)
        | inr inside ↦ inr (rw (q.kept j (index a) far (c.locks.only (index a) inside)).1 ok)
      ]
    ];
  }
  Fine-stable (writing x wv todo held) c = record {
    locks = Held-stable far q c.locks;
    stamped = Stamped-stable far q c.locks c.stamped;
    pending = Pending-stable far q x todo held c.locks c.pending;
    left = Left-stable far q x todo held c.locks c.left;
  }
  Fine-stable (moving x wv a v todo held) c = record {
    locks = Held-stable far q c.locks;
    stamped = Stamped-stable far q c.locks c.stamped;
    pending = Pending-stable far q x (a ∷ todo) held c.locks c.pending;
    left = Left-stable far q x (a ∷ todo) held c.locks c.left;
    value = c.value;
    set = (q.kept j (index a) far (c.locks.only (index a) (inside c))).1 ∙ c.set;
    not_unset = (q.kept_at j a far (c.locks.only (index a) (inside c))).2 ∙ c.not_unset;
  }
    where
      inside : Moving j m g x wv a v todo held → contains (index a) held ≡ true
      inside c = (c.pending a v (ground arith) c.value).1
  Fine-stable (releasing held) c = record {
    locks = Held-stable far q c.locks;
    quiet = Quiet-stable far q c.locks c.quiet;
  }
