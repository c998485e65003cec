-- ===== src/Threads/Reads.antt =====
-- The moves of a thread up to the end of its lambda keep what is true of it.
use tl2_cpp.Common.{
  ℕ, ◌<◌, ◌≡◌, refl, ap, sym, fun_ext, ◌∙◌, ◌⊎◌, inl, inr, true, ◌||◌, none, some, List, [], ◌∷◌,
  ◌++◌, ◌==◌, contains, All, arith, Bool-cases, eq_of_==,
}
use tl2_cpp.LockTable.{index}
use tl2_cpp.Tx.{Tx, ret, load, store, exec}
use tl2_cpp.Threads.{Memory, Log, Txn, no_log, logged, append_read, append_write}
use tl2_cpp.Threads.Ghost.{Ghost, Global, Held, Doomed, Valid, Locking, Fetching, Running}

contains-append : (b a : ℕ) (xs : List ℕ) → contains b (xs ++ a ∷ []) ≡ ((b == a) || contains b xs)
contains-append b a [] = refl
contains-append b a (x ∷ xs) = ground (arith, contains-append b a xs)

contains_congr : (b a : ℕ) (xs : List ℕ) → (b == a) ≡ true → contains b xs ≡ contains a xs
contains_congr b a xs e = ap (λ c. contains c xs) (eq_of_== b a e)

contains-logged :
    {V : Type 0} (b a : ℕ) (l : Log V)
    → contains b (logged a l).locs ≡ ((b == a) || contains b l.locs)
contains-logged b a l = elim (Bool-cases (contains a l.locs)) [
  | inl old ↦ rw old (elim (Bool-cases (b == a)) [
    | inl here ↦ rw here (contains_congr b a l.locs here ∙ old)
    | inr there ↦ ground (arith, there)
  ])
  | inr new ↦ rw new (contains-append b a l.locs)
]

module _ {V : Type 0} {m : Memory V} {g : Ghost V} where
  -- The data of an address whose lock was free since the start: they are those with all committed
  -- writes, or a write to them is under way.
  fetched :
      {rv : ℕ}
      → Global m g
      → (a : ℕ) → ((v : ℕ) → g.stamp (index a) ≡ some v → rv < v)
      → (g.am a ≡ m.mem a) ⊎ Doomed m g rv a
  fetched w a since = elim (Bool-cases (g.due a)) [
    | inl due ↦
        let (v, st, at) = w.due_stamp a due in
        elim at [
          | inl unset ↦ inr (inr (a, v, unset, refl, st, since v st))
          | inr set ↦ inr (inl (omega (arith, since v st, set)))
        ]
    | inr not_due ↦ inl (sym (w.moved a not_due))
  ]

module _ {V A : Type 0} {i : ℕ} {m : Memory V} {g : Ghost V} where
  pub start-Running :
      (t : Tx V A) → Held i m [] → Running i m g (record { body = t; rv = m.clock; log = no_log }) t
  start-Running t h = record {
    reading = record {
      rv_clock = omega arith;
      seen = [];
      replay = λ mem agree. refl;
      noted = λ a w i e. absurd (cc);
      still = tt;
      read_logged = λ a i. absurd (cc);
      write_logged = λ a v e. absurd (cc);
    };
    locks = h;
  }

  module _ {x : Txn V A} {a : ℕ} where
    pub note-Fetching :
        (f : V → Tx V A)
        → Global m g
        → m.owner (index a) ≡ none
        → Running i m g x (load a f)
        → Fetching i m g (record x { log = append_read a x.log }) a f
    note-Fetching f w free c =
        let r = c.reading in
        record {
          reading = record {
            rv_clock = r.rv_clock;
            seen = r.seen;
            replay = r.replay;
            noted = λ b v is_read st. elim (Bool-cases (a == b)) [
              | inl here ↦
                  let unheld : g.stamp (index b) ≡ none =
                    ap (λ k. g.stamp (index k)) (sym (eq_of_== a b here)) ∙ w.free (index a) free in
                  absurd (cc)
              | inr there ↦ r.noted b v (ground (arith, is_read)) st
            ];
            still = more r.seen r.still;
            read_logged =
                λ b is_read. contains-logged b a x.log ∙ ground (arith, r.read_logged b, is_read);
            write_logged =
                λ b v e. contains-logged b a x.log ∙ ground (arith, r.write_logged b v e);
          };
          locks = c.locks;
          noted = ground arith;
        }
      where
        more :
            (seen : List (ℕ × V))
            → All (Valid m g x.rv x.log) seen
            → All (Valid m g x.rv (append_read a x.log)) seen
        more [] v = tt
        more (c ∷ seen) (v, vs) = ((ground (arith, v.0), v.1), more seen vs)

    pub own-Running :
        (f : V → Tx V A) (v : V)
        → x.log.staged a ≡ some v
        → Fetching i m g x a f
        → Running i m g x (f v)
    unfolding exec
    own-Running f v e c =
        let r = c.reading in
        record {
          reading = record {
            rv_clock = r.rv_clock;
            seen = r.seen;
            replay = λ mem agree. r.replay mem agree ∙ rw e refl;
            noted = r.noted;
            still = r.still;
            read_logged = r.read_logged;
            write_logged = r.write_logged;
          };
          locks = c.locks;
        }

    pub fetch-Running :
        (f : V → Tx V A)
        → Global m g
        → x.log.staged a ≡ none
        → Fetching i m g x a f
        → Running i m g x (f (m.mem a))
    unfolding exec
    fetch-Running f w e c =
        let r = c.reading in
        record {
          reading = record {
            rv_clock = r.rv_clock;
            seen = (a, m.mem a) ∷ r.seen;
            replay = λ mem agree. r.replay mem agree.1 ∙ rw (e, agree.0) refl;
            noted = r.noted;
            still = ((c.noted, fetched w a (λ v st. r.noted a v c.noted st)), r.still);
            read_logged = r.read_logged;
            write_logged = r.write_logged;
          };
          locks = c.locks;
        }

    pub put-Running :
        (v : V) (t : Tx V A)
        → Running i m g x (store a v t)
        → Running i m g (record x { log = append_write a v x.log }) t
    unfolding exec
    put-Running v t c =
        let r = c.reading in
        record {
          reading = record {
            rv_clock = r.rv_clock;
            seen = r.seen;
            replay = λ mem agree. r.replay mem agree ∙ ap (exec t) (fun_ext (λ b. ground arith));
            noted = r.noted;
            still = r.still;
            read_logged =
                λ b is_read. contains-logged b a x.log ∙ ground (arith, r.read_logged b, is_read);
            write_logged = λ b u e. contains-logged b a x.log ∙ written b u e;
          };
          locks = c.locks;
        }
      where
        written :
            (b : ℕ) (u : V)
            → (append_write a v x.log).staged b ≡ some u
            → ((b == a) || contains b x.log.locs) ≡ true
        written b u e = elim (Bool-cases (a == b)) [
          | inl here ↦ ground (arith, here)
          | inr there ↦ ground (arith, there, c.reading.write_logged b u (rw there at e))
        ]

  pub sort-Locking :
      (x : Txn V A) (r : A) (todo : List ℕ)
      → ((a : ℕ) → contains a todo ≡ contains a x.log.locs)
      → Running i m g x (ret r)
      → Locking i m g (record x { log = record x.log { locs = todo } }) r todo []
  sort-Locking x r todo same c =
      let q = c.reading in
      record {
        reading = record {
          rv_clock = q.rv_clock;
          seen = q.seen;
          replay = q.replay;
          noted = q.noted;
          still = q.still;
          read_logged = λ a i. same a ∙ q.read_logged a i;
          write_logged = λ a v e. same a ∙ q.write_logged a v e;
        };
        locks = c.locks;
        covered = λ a i. inl i;
        stamped = λ s i. absurd (cc);
      }
