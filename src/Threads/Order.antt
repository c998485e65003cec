-- ===== src/Threads/Order.antt =====
-- The order in which a thread takes its locks, and that there is a sorted list of its locations.
use tl2_cpp.Common.{
  ℕ, ◌<◌, ◌≡◌, refl, ap, sym, subst, ◌∙◌, inl, inr, true, ◌||◌, Option, List, [], ◌∷◌, ◌==◌,
  contains, arith, ltb, ltb→lt, Bool-cases, eq_of_==, if◌then◌else◌,
}
use tl2_cpp.LockTable.{index}
use tl2_cpp.Threads.{
  Memory, Pc, idle, locking, Move, start, note, own, fetch, put, throws, escapes, sort, owned, take,
  incr_next, incr_later, unread, valid, stale, validated, unwritten, set_version, move, written,
  release, leave, Above, Ascending, System, pick, Run, begun, later,
}
use tl2_cpp.Tx.{Tx}

-- Insertion, for the existence of the list that `stable_sort` makes.
insert : ℕ → List ℕ → List ℕ
insert a [] = a ∷ []
insert a (b ∷ bs) =
    let rest = insert a bs in if a == b then b ∷ bs else if ltb a b then a ∷ b ∷ bs else b ∷ rest

pub sorted : List ℕ → List ℕ
sorted [] = []
sorted (a ∷ xs) = insert a (sorted xs)

contains-insert : (b a : ℕ) (xs : List ℕ) → contains b (insert a xs) ≡ ((b == a) || contains b xs)
unfolding insert
contains-insert b a [] = refl
contains-insert b a (x ∷ xs) = elim (Bool-cases (a == x)) [
  | inl same ↦ rw same (ground (arith, same))
  | inr other ↦ elim (Bool-cases (ltb a x)) [
    | inl lo ↦ rw (other, lo) refl
    | inr hi ↦ rw (other, hi) (ground (arith, contains-insert b a xs))
  ]
]

insert-Above : (c a : ℕ) (xs : List ℕ) → c < a → Above c xs → Above c (insert a xs)
unfolding insert
insert-Above c a [] lt s = (lt, tt)
insert-Above c a (x ∷ xs) lt s = elim (Bool-cases (a == x)) [
  | inl same ↦ rw same s
  | inr other ↦ elim (Bool-cases (ltb a x)) [
    | inl lo ↦ rw (other, lo) (lt, (ltb→lt a x lo, s.1))
    | inr hi ↦ rw (other, hi) (s.0, insert-Above x a xs (ground (arith, other, hi)) s.1)
  ]
]

insert-Ascending : (a : ℕ) (xs : List ℕ) → Ascending xs → Ascending (insert a xs)
unfolding insert
insert-Ascending a [] s = tt
insert-Ascending a (x ∷ xs) s = elim (Bool-cases (a == x)) [
  | inl same ↦ rw same s
  | inr other ↦ elim (Bool-cases (ltb a x)) [
    | inl lo ↦ rw (other, lo) (ltb→lt a x lo, s)
    | inr hi ↦ rw (other, hi) (insert-Above x a xs (ground (arith, other, hi)) s)
  ]
]

pub contains-sorted : (b : ℕ) (xs : List ℕ) → contains b (sorted xs) ≡ contains b xs
unfolding sorted
contains-sorted b [] = refl
contains-sorted b (x ∷ xs) =
    contains-insert b x (sorted xs) ∙ ap (λ t. (b == x) || t) (contains-sorted b xs)

pub sorted-Ascending : (xs : List ℕ) → Ascending (sorted xs)
unfolding sorted
sorted-Ascending [] = tt
sorted-Ascending (x ∷ xs) = insert-Ascending x (sorted xs) (sorted-Ascending xs)

Above-weaken : (b a : ℕ) (xs : List ℕ) → b < a → Above a xs → Above b xs
Above-weaken b a [] lt s = tt
Above-weaken b a (x ∷ xs) lt s = (omega (arith, lt, s.0), s.1)

Above-Ascending : (a : ℕ) (xs : List ℕ) → Above a xs → Ascending xs
Above-Ascending a [] s = tt
Above-Ascending a (x ∷ xs) s = s.1

-- Each lock that is held is that of a location before all that are left.
pub record IsOrdered (locs todo held : List ℕ) : Type 0 where
  pub ascends : Ascending todo
  pub logged : (a : ℕ) → contains a todo ≡ true → contains a locs ≡ true
  pub before :
      (s : ℕ)
      → contains s held ≡ true
      → (b : ℕ) × (contains b locs ≡ true) × (index b ≡ s) × Above b todo

module _ {V A : Type 0} where
  abbrev pub Ordered : Pc V A → Type 0
  Ordered (locking x r todo held) = IsOrdered x.log.locs todo held
  Ordered _ = Unit

  Move-Ordered :
      {i : ℕ} {m m' : Memory V} {e : Option (Tx V A × A)} {p p' : Pc V A}
      → Move i m p e m' p'
      → Ordered p
      → Ordered p'
  Move-Ordered (sort {todo} asc same) c = record {
    ascends = asc;
    logged = λ a i. i;
    before = λ s i. absurd (cc);
  }
  Move-Ordered (owned {a} {todo} mine) c = record {
    ascends = Above-Ascending a todo c.ascends;
    logged = λ b i. c.logged b (ground (arith, i));
    before = λ s i.
        let (b, there, at, lo) = c.before s i in (b, there, at, Above-weaken b a todo lo.0 lo.1);
  }
  Move-Ordered (take {a} {todo} {held} out free) c = record {
    ascends = Above-Ascending a todo c.ascends;
    logged = λ b i. c.logged b (ground (arith, i));
    before = λ s i. elim (Bool-cases (index a == s)) [
      | inl now ↦ (a, c.logged a (ground arith), eq_of_== (index a) s now, c.ascends)
      | inr earlier ↦
          let (b, there, at, lo) = c.before s (ground (arith, i, earlier)) in
          (b, there, at, Above-weaken b a todo lo.0 lo.1)
    ];
  }
  Move-Ordered start c = tt
  Move-Ordered (note free) c = tt
  Move-Ordered (own e) c = tt
  Move-Ordered (fetch e) c = tt
  Move-Ordered put c = tt
  Move-Ordered (throws e) c = tt
  Move-Ordered escapes c = tt
  Move-Ordered (incr_next e) c = tt
  Move-Ordered (incr_later e) c = tt
  Move-Ordered (unread e) c = tt
  Move-Ordered (valid e l) c = tt
  Move-Ordered (stale e l) c = tt
  Move-Ordered validated c = tt
  Move-Ordered (unwritten e) c = tt
  Move-Ordered (set_version e) c = tt
  Move-Ordered move c = tt
  Move-Ordered written c = tt
  Move-Ordered release c = tt
  Move-Ordered leave c = tt

  pub Run-Ordered :
      (s s' : System V A) (es : List (Tx V A × A))
      → ((i : ℕ) → s.pc i ≡ idle)
      → Run s es s'
      → (i : ℕ) → Ordered (s'.pc i)
  Run-Ordered s _ _ rest begun i = subst Ordered (sym (rest i)) tt
  Run-Ordered s _ _ rest (later {es} {e} {s₁} run (pick k {m} {p} mv)) i =
      elim (Bool-cases (k == i)) [
        | inl same ↦ rw same (Move-Ordered mv (Run-Ordered s s₁ es rest run k))
        | inr other ↦ rw other (Run-Ordered s s₁ es rest run i)
      ]
