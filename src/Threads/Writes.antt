-- ===== src/Threads/Writes.antt =====
-- The moves of a thread that write back keep what is true of it and of the memory.
use tl2_cpp.Common.{
  ℕ, ◌≤◌, ◌≡◌, ◌≢◌, refl, ap, sym, subst, ◌∙◌, inl, inr, true, false, some, List, ◌∷◌, ◌==◌,
  contains, arith, update, Bool-cases, eq_of_==,
}
use tl2_cpp.LockTable.{index}
use tl2_cpp.Threads.{Memory, Txn}
use tl2_cpp.Threads.Ghost.{Ghost, Global, Guar, Held, Writing, Moving}
use tl2_cpp.Threads.Locks.{other-held}

-- Who holds which lock is as before.
pub Held-same :
    {V : Type 0} {i : ℕ} {m : Memory V} {held : List ℕ} (m' : Memory V)
    → m'.owner ≡ m.owner
    → Held i m held
    → Held i m' held
Held-same m' same h = record {
  all = λ s e. h.all s (ap (λ o. o s) (sym same) ∙ e);
  only = λ s i. ap (λ o. o s) same ∙ h.only s i;
  distinct = h.distinct;
}

abbrev pub versioned : {V : Type 0} → ℕ → ℕ → Memory V → Memory V
versioned a wv m = record m { ver = update m.ver (index a) wv }

abbrev pub settled : {V : Type 0} → ℕ → Ghost V → Ghost V
settled a g = record g { unset = update g.unset a false }

module _ {V A : Type 0} {i : ℕ} {m : Memory V} {g : Ghost V} {x : Txn V A} {wv a : ℕ} {v : V}
    {todo held : List ℕ} (w : Global m g) (c : Writing i m g x wv (a ∷ todo) held)
    (e : x.log.staged a ≡ some v) where
  at_held : contains (index a) held ≡ true
  at_held = (c.pending a v (ground arith) e).1

  at_stamp : g.stamp (index a) ≡ some wv
  at_stamp = c.stamped (index a) at_held

  same_stamp : (s u : ℕ) → (index a == s) ≡ true → g.stamp s ≡ some u → wv ≡ u
  same_stamp s u here st =
      let there : g.stamp s ≡ some wv = ap g.stamp (sym (eq_of_== (index a) s here)) ∙ at_stamp in
      cc

  ver_grows : (s : ℕ) → m.ver s ≤ (versioned a wv m).ver s
  ver_grows s = elim (Bool-cases (index a == s)) [
    | inl here ↦
        rw here (
          subst (λ k. m.ver k ≤ wv) (eq_of_== (index a) s here)
            (w.stamp_le (index a) wv at_stamp).1)
    | inr there ↦ rw there (omega arith)
  ]

  now_set :
      (b u : ℕ)
      → (a == b) ≡ true
      → g.stamp (index b) ≡ some u
      → u ≤ (versioned a wv m).ver (index b)
  now_set b u here st =
      let at : (index a == index b) ≡ true =
        ap (λ k. index a == index k) (sym (eq_of_== a b here)) ∙ ground arith in
      let same = same_stamp (index b) u at st in rw at (omega (arith, same))

  pub set-Global : Global (versioned a wv m) (settled a g)
  set-Global = record {
    ver_clock = λ s. elim (Bool-cases (index a == s)) [
      | inl here ↦ rw here (w.stamp_le (index a) wv at_stamp).0
      | inr there ↦ rw there (w.ver_clock s)
    ];
    stamp_le = λ s u st. elim (Bool-cases (index a == s)) [
      | inl here ↦
          let same = same_stamp s u here st in
          ((w.stamp_le s u st).0, rw here (omega (arith, same)))
      | inr there ↦ rw there (w.stamp_le s u st)
    ];
    free = w.free;
    due_stamp = λ b due.
        let (u, st, at) = w.due_stamp b due in
        (
          u,
          st,
          elim (Bool-cases (a == b)) [
            | inl here ↦ inr (now_set b u here st)
            | inr there ↦ elim at [
              | inl unset ↦ inl (rw there unset)
              | inr set ↦ inr (omega (arith, set, ver_grows (index b)))
            ]
          ],
        );
    moved = w.moved;
    unset_due = λ b u. elim (Bool-cases (a == b)) [
      | inl here ↦ let off : false ≡ true = rw here at u in absurd (cc)
      | inr there ↦ w.unset_due b (rw there at u)
    ];
  }

  pub set-Guar : Guar i m (versioned a wv m) g (settled a g)
  set-Guar = record {
    clock_le = omega arith;
    ver_le = ver_grows;
    owned = λ j s far o. o;
    not_given = λ j s far o. o;
    kept = λ j s far o. (refl, rw (apart j s far o) refl);
    kept_at = λ j b far o. (refl, refl, rw (apart_at j b far o) refl);
    late = λ s u st. inl st;
    set = λ b u unset st. elim (Bool-cases (a == b)) [
      | inl here ↦ inr (now_set b u here st)
      | inr there ↦ inl (rw there unset, st)
    ];
    changed = λ b. inl refl;
  }
    where
      apart : (j s : ℕ) → j ≢ i → m.owner s ≡ some j → (index a == s) ≡ false
      apart j s far o = elim (Bool-cases (index a == s)) [
        | inl here ↦
            let mine : contains s held ≡ true =
              ap (λ k. contains k held) (sym (eq_of_== (index a) s here)) ∙ at_held in
            let not_mine = other-held held c.locks j s far o in absurd (cc)
        | inr there ↦ there
      ]

      apart_at : (j b : ℕ) → j ≢ i → m.owner (index b) ≡ some j → (a == b) ≡ false
      apart_at j b far o = elim (Bool-cases (a == b)) [
        | inl here ↦
            let other = apart j (index b) far o in
            let same : (index a == index b) ≡ true =
              ap (λ k. index a == index k) (sym (eq_of_== a b here)) ∙ ground arith in
            absurd (cc)
        | inr there ↦ there
      ]

  pub set-Moving : Moving i (versioned a wv m) (settled a g) x wv a v todo held
  set-Moving = record {
    locks = Held-same (versioned a wv m) refl c.locks;
    stamped = c.stamped;
    pending = c.pending;
    left = c.left;
    value = e;
    set = ground arith;
    not_unset = ground arith;
  }

abbrev pub stored : {V : Type 0} → ℕ → V → Memory V → Memory V
stored a v m = record m { mem = update m.mem a v }

abbrev pub finished : {V : Type 0} → ℕ → Ghost V → Ghost V
finished a g = record g { due = update g.due a false }

module _ {V A : Type 0} {i : ℕ} {m : Memory V} {g : Ghost V} {x : Txn V A} {wv a : ℕ} {v : V}
    {todo held : List ℕ} (w : Global m g) (c : Moving i m g x wv a v todo held) where
  pub move-Global : Global (stored a v m) (finished a g)
  move-Global = record {
    ver_clock = w.ver_clock;
    stamp_le = w.stamp_le;
    free = w.free;
    due_stamp = λ b due. elim (Bool-cases (a == b)) [
      | inl here ↦ let off : false ≡ true = rw here at due in absurd (cc)
      | inr there ↦ w.due_stamp b (rw there at due)
    ];
    moved = λ b done. elim (Bool-cases (a == b)) [
      | inl here ↦
          rw here (sym (c.pending a v (ground arith) c.value).0 ∙ ap g.am (eq_of_== a b here))
      | inr there ↦ rw there (w.moved b (rw there at done))
    ];
    unset_due = λ b u. elim (Bool-cases (a == b)) [
      | inl here ↦
          let off : g.unset b ≡ false = ap g.unset (sym (eq_of_== a b here)) ∙ c.not_unset in
          absurd (cc)
      | inr there ↦ rw there (w.unset_due b u)
    ];
  }

  pub move-Guar : Guar i m (stored a v m) g (finished a g)
  move-Guar = record {
    clock_le = omega arith;
    ver_le = λ s. omega arith;
    owned = λ j s far o. o;
    not_given = λ j s far o. o;
    kept = λ j s far o. (refl, refl);
    kept_at = λ j b far o. (rw (apart j b far o) refl, refl, refl);
    late = λ s u st. inl st;
    set = λ b u unset st. inl (unset, st);
    changed = λ b. inl refl;
  }
    where
      apart : (j b : ℕ) → j ≢ i → m.owner (index b) ≡ some j → (a == b) ≡ false
      apart j b far o = elim (Bool-cases (a == b)) [
        | inl here ↦
            let mine : contains (index b) held ≡ true =
              ap (λ k. contains (index k) held) (sym (eq_of_== a b here))
              ∙ (c.pending a v (ground arith) c.value).1 in
            let not_mine = other-held held c.locks j (index b) far o in absurd (cc)
        | inr there ↦ there
      ]

  pub move-Writing : Writing i (stored a v m) (finished a g) x wv todo held
  move-Writing = record {
    locks = Held-same (stored a v m) refl c.locks;
    stamped = c.stamped;
    pending = λ b u more e. c.pending b u (ground (arith, more)) e;
    left = λ b inside due. elim (Bool-cases (a == b)) [
      | inl here ↦ let off : false ≡ true = rw here at due in absurd (cc)
      | inr there ↦
          let (more, value) = c.left b inside (rw there at due) in
          (ground (arith, there, more), value)
    ];
  }
