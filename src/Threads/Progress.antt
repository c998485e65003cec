-- ===== src/Threads/Progress.antt =====
-- The threads do not block each other for ever while the locks of each transaction are taken in the
-- order of the locks, as they are where all its addresses are in one window of 2 ^ 24 bytes.
use tl2_cpp.Common.{
  ℕ, zero, suc, ◌+◌, ◌/◌, ◌^◌, ◌≤◌, ◌<◌, ◌≡◌, refl, ap, sym, ◌∙◌, ◌⊎◌, inl, inr, Bool, true, false,
  ◌%◌, Option, some, List, [], ◌∷◌, ◌==◌, contains, arith, ltb, ltb→lt, Bool-cases, Option-cases,
  eq_of_==,
}
use tl2_cpp.LockTable.{index, locktable_size}
use tl2_cpp.LockTable.Order.{index-lt, index_mono_window}
use tl2_cpp.Tx.{Tx, ret, load, store, raise}
use tl2_cpp.Threads.{
  Memory, Pc, idle, lost, running, fetching, locking, validating, writing, moving, releasing, Move,
  note, own, fetch, put, throws, escapes, sort, owned, take, incr_next, incr_later, unread, valid,
  stale, validated, unwritten, set_version, move, written, release, leave, System, Run,
}
use tl2_cpp.Manager.{invalid_access, failure, foreign}
use tl2_cpp.Threads.Ghost.{Held}
use tl2_cpp.Threads.Held.{held_of, Run-Held}
use tl2_cpp.Threads.Order.{contains-sorted, sorted-Ascending, Ordered, Run-Ordered}
use tl2_cpp.Threads.Serial.{IsInitial}

-- The thread waits for a lock of another one, which is behind all that it holds.
abbrev pub Waits : {V : Type 0} → ℕ → Memory V → Type 0
Waits i m =
    (t : ℕ) × (k : ℕ) × (m.owner t ≡ some k)
    × (t < locktable_size)
    × ((s : ℕ) → m.owner s ≡ some i → s < t)

module _ {V A : Type 0} where
  -- The addresses of a transaction that takes locks are all in the window `w`.
  abbrev pub InWindow : ℕ → Pc V A → Type 0
  InWindow w (locking x r todo held) = (a : ℕ) → contains a x.log.locs ≡ true → a / 2 ^ 24 ≡ w
  InWindow w _ = Unit

  -- A thread that stands there is in a transaction, which no exception has left.
  abbrev pub busy : Pc V A → Bool
  busy idle = false
  busy lost = false
  busy _ = true

  -- A thread that stands at `p` and is in a transaction can move.
  abbrev pub Can : ℕ → Memory V → Pc V A → Type 0
  Can i m p =
      (busy p ≡ true)
      × ((e : Option (Tx V A × A)) × (m' : Memory V) × (p' : Pc V A) × Move i m p e m' p')

  can :
      {i : ℕ} {m m' : Memory V} {p p' : Pc V A} {e : Option (Tx V A × A)}
      → busy p ≡ true
      → Move i m p e m' p'
      → Can i m p ⊎ Waits i m
  can {m'} {p'} {e} on mv = inl (on, (e, m', p', mv))

  Can-or-Waits :
      (i w : ℕ) (m : Memory V) (p : Pc V A)
      → busy p ≡ true
      → Held i m (held_of p)
      → Ordered p
      → InWindow w p
      → Can i m p ⊎ Waits i m
  Can-or-Waits i w m idle on c o n = absurd (cc)
  Can-or-Waits i w m lost on c o n = absurd (cc)
  Can-or-Waits i w m (running x (ret r)) on c o n =
      can on (sort (sorted-Ascending x.log.locs) (λ a. contains-sorted a x.log.locs))
  Can-or-Waits i w m (running x (store a v t)) on c o n = can on put
  Can-or-Waits i w m (running x (raise foreign)) on c o n = can on escapes
  Can-or-Waits i w m (running x (raise failure)) on c o n = can on (throws (λ e. absurd (cc)))
  Can-or-Waits i w m (running x (raise invalid_access)) on c o n =
      can on (throws (λ e. absurd (cc)))
  Can-or-Waits i w m (running x (load a f)) on c o n = elim (Option-cases (m.owner (index a))) [
    | inl free ↦ can on (note free)
    | inr (k, taken) ↦
        inr (index a, k, taken, index-lt a, λ s mine. let out = c.all s mine in absurd (cc))
  ]
  Can-or-Waits i w m (fetching x a f) on c o n = elim (Option-cases (x.log.staged a)) [
    | inl from_data ↦ can on (fetch from_data)
    | inr (v, e) ↦ can on (own e)
  ]
  Can-or-Waits i w m (locking x r [] held) on c o n =
      elim (Bool-cases ((m.clock + 1) % 2 ^ 63 == x.rv + 1)) [
        | inl next ↦ can on (incr_next (eq_of_== ((m.clock + 1) % 2 ^ 63) (x.rv + 1) next))
        | inr more ↦ can on (incr_later (λ e. absurd (ground (arith, more, e))))
      ]
  Can-or-Waits i w m (locking x r (a ∷ todo) held) on c o n =
      elim (Bool-cases (contains (index a) held)) [
        | inl mine ↦ can on (owned mine)
        | inr out ↦ elim (Option-cases (m.owner (index a))) [
          | inl free ↦ can on (take out free)
          | inr (k, taken) ↦ inr (
            index a,
            k,
            taken,
            index-lt a,
            λ s mine.
                let inside = c.all s mine in
                let (b, there, at, lo) = o.before s inside in
                let le : index b ≤ index a =
                  index_mono_window b a (n b there ∙ sym (n a (o.logged a (ground arith))))
                    (omega (arith, lo.0)) in
                let apart : (s == index a) ≡ false = elim (Bool-cases (s == index a)) [
                  | inl same ↦
                      let clash : contains s held ≡ contains (index a) held =
                        ap (λ k. contains k held) (eq_of_== s (index a) same) in
                      absurd (cc)
                  | inr d ↦ d
                ] in
                ground (arith, le, at, apart),
          )
        ]
      ]
  Can-or-Waits i w m (validating x wv r [] held) on c o n = can on validated
  Can-or-Waits i w m (validating x wv r (a ∷ todo) held) on c o n =
      elim (Bool-cases (x.log.was_read a)) [
        | inl is_read ↦ elim (Bool-cases (ltb x.rv (m.ver (index a)))) [
          | inl old ↦ can on (stale is_read (ltb→lt x.rv (m.ver (index a)) old))
          | inr fits ↦ can on (valid is_read (ground (arith, fits)))
        ]
        | inr no_read ↦ can on (unread no_read)
      ]
  Can-or-Waits i w m (writing x wv [] held) on c o n = can on written
  Can-or-Waits i w m (writing x wv (a ∷ todo) held) on c o n =
      elim (Option-cases (x.log.staged a)) [
        | inl no_write ↦ can on (unwritten no_write)
        | inr (v, e) ↦ can on (set_version e)
      ]
  Can-or-Waits i w m (moving x wv a v todo held) on c o n = can on move
  Can-or-Waits i w m (releasing []) on c o n = can on leave
  Can-or-Waits i w m (releasing (s ∷ held)) on c o n = can on release

  holds-busy :
      {i s : ℕ} (m : Memory V) (p : Pc V A)
      → Held i m (held_of p)
      → m.owner s ≡ some i
      → busy p ≡ true
  holds-busy {i} {s} m idle c mine = let out : false ≡ true = c.all s mine in absurd (cc)
  holds-busy {i} {s} m lost c mine = let out : false ≡ true = c.all s mine in absurd (cc)
  holds-busy m (running x rest) c mine = refl
  holds-busy m (fetching x a f) c mine = refl
  holds-busy m (locking x r todo held) c mine = refl
  holds-busy m (validating x wv r todo held) c mine = refl
  holds-busy m (writing x wv todo held) c mine = refl
  holds-busy m (moving x wv a v todo held) c mine = refl
  holds-busy m (releasing held) c mine = refl

  module _ (w : ℕ) (s : System V A) (holds : (i : ℕ) → Held i s.shared (held_of (s.pc i)))
      (order : (i : ℕ) → Ordered (s.pc i)) (window : (i : ℕ) → InWindow w (s.pc i)) where
    -- From a lock that is held to one behind it, as long as its thread waits: `n` are left.
    climb :
        (n t k : ℕ)
        → s.shared.owner t ≡ some k
        → t < locktable_size
        → locktable_size ≤ t + n
        → (i : ℕ) × Can i s.shared (s.pc i)
    climb zero t k mine lt enough = absurd (omega (arith, lt, enough))
    climb (suc n) t k mine lt enough =
        elim (Can-or-Waits k w s.shared (s.pc k) (holds-busy s.shared (s.pc k) (holds k) mine)
          (holds k) (order k) (window k)) [
            | inl moves ↦ (k, moves)
            | inr (u, j, other, fits, behind) ↦
                climb n u j other fits (omega (arith, enough, behind t mine))
          ]

    some_moves : (i : ℕ) → busy (s.pc i) ≡ true → (k : ℕ) × Can k s.shared (s.pc k)
    some_moves i on = elim (Can-or-Waits i w s.shared (s.pc i) on (holds i) (order i) (window i)) [
      | inl moves ↦ (i, moves)
      | inr (u, j, other, fits, behind) ↦ climb locktable_size u j other fits (omega arith)
    ]

  -- Start with no thread in a transaction, no lock held and no version above the clock, and let the
  -- threads run in any way. If some thread is in a transaction, not left in it by an exception that is
  -- no `std::exception`, and those that are taking locks have all their addresses in one window of
  -- 2 ^ 24 bytes, then some such thread can move.
  pub Run-Can :
      (w : ℕ) (s s' : System V A) (es : List (Tx V A × A)) (i : ℕ)
      → IsInitial s
      → Run s es s'
      → ((j : ℕ) → InWindow w (s'.pc j))
      → busy (s'.pc i) ≡ true
      → (k : ℕ) × Can k s'.shared (s'.pc k)
  Run-Can w s s' es i c run window on =
      some_moves w s' (Run-Held s s' es c.idle_all c.free run) (Run-Ordered s s' es c.idle_all run)
        window i on
