-- ===== src/Lists/LockFreeList/Set.antt =====
-- `LockFreeList` as a set of keys, with nodes that are marked and still linked.
use tl2_cpp.Common.{
  ℕ, suc, ◌<◌, ◌≤◌, ◌≡◌, refl, sym, ap, subst, ◌∙◌, Bool, true, false, ◌||◌, Option, none, some,
  List, [], ◌∷◌, ◌==◌, leb, length, arith, Bool-cases, inl, inr,
}
use tl2_cpp.Common.Res.{ok}
use tl2_cpp.Heap.{Heap}
use tl2_cpp.Heap.Cells.{head_of, has, Cells}
use tl2_cpp.Lists.Sorted.{Entry, entry, int_min, int_max}
use tl2_cpp.Lists.LockFreeList.{LockFreeList, locate}
use tl2_cpp.Lists.LockFreeList.Marked.{view, get-view}
use tl2_cpp.Lists.LockFreeList.Locate.{cut, reaches, has_live, has_live-cut, Stop, hop-Stop}

module _ {T : Type 0} where
  -- The keys ascend, and all are larger than `lo`.
  abbrev pub Above : ℕ → List (ℕ × (Entry T × Bool)) → Type 0
  Above lo [] = Unit
  Above lo ((q, (e, m)) ∷ xs) = (lo < e.key) × Above e.key xs

  abbrev pub Ascending : List (ℕ × (Entry T × Bool)) → Type 0
  Ascending [] = Unit
  Ascending ((q, (e, m)) ∷ xs) = Above e.key xs

  abbrev pub first_cell : List (ℕ × (Entry T × Bool)) → Option (ℕ × (Entry T × Bool))
  first_cell [] = none
  first_cell (x ∷ xs) = some x

  -- The list has the cells `ws`, those that are marked among them: the first is the head, the keys
  -- ascend, and the last has the key INT_MAX.
  pub record IsMarked (l : LockFreeList) (h : Heap (Entry T)) (ws : List (ℕ × (Entry T × Bool)))
      : Type 0 where
    pub cells : Cells l.tail (view h) ws
    pub first : first_cell ws ≡ some (l.head, (entry none int_min, false))
    pub order : Ascending ws
    pub reach : reaches int_max ws ≡ true

  pub Above-weaken : (a b : ℕ) (xs : List (ℕ × (Entry T × Bool))) → a ≤ b → Above b xs → Above a xs
  Above-weaken a b [] le o = tt
  Above-weaken a b ((q, (e, m)) ∷ xs) le o = (omega (arith, le, o.0), o.1)

  Above-cut : (lo key : ℕ) (xs : List (ℕ × (Entry T × Bool))) → Above lo xs → Above lo (cut key xs)
  unfolding cut
  Above-cut lo key [] o = tt
  Above-cut lo key ((q, (e, true)) ∷ xs) o =
      Above-cut lo key xs (Above-weaken lo e.key xs (omega (arith, o.0)) o.1)
  Above-cut lo key ((q, (e, false)) ∷ xs) o = elim (Bool-cases (leb key e.key)) [
    | inl high ↦ rw high o
    | inr low ↦ rw low (o.0, Above-cut e.key key xs o.1)
  ]

  reaches-cut :
      (k key : ℕ) (xs : List (ℕ × (Entry T × Bool))) → reaches k (cut key xs) ≡ reaches k xs
  unfolding cut
  reaches-cut k key [] = refl
  reaches-cut k key ((q, (e, true)) ∷ xs) = reaches-cut k key xs
  reaches-cut k key ((q, (e, false)) ∷ xs) = ground (arith, reaches-cut k key xs)

  pub reaches-lower :
      (j k : ℕ) (xs : List (ℕ × (Entry T × Bool)))
      → j ≤ k
      → reaches k xs ≡ true
      → reaches j xs ≡ true
  reaches-lower j k [] le r = cc
  reaches-lower j k ((q, (e, m)) ∷ xs) le r = ground (arith, reaches-lower j k xs le, le, r)

  -- What `locate` leaves, with the places that it returns.
  pub record Located (l : LockFreeList) (key : ℕ) (h h' : Heap (Entry T))
      (ws : List (ℕ × (Entry T × Bool))) (pred curr : ℕ) : Type 0 where
    pub kept : List (ℕ × (Entry T × Bool))
    pub marked : IsMarked l h' kept
    pub place : Stop key kept pred curr
    pub members : (k : ℕ) → has_live k kept ≡ has_live k ws
    pub same : (a : ℕ) → has a ws ≡ false → h' a ≡ h a

  pub starts :
      (c : ℕ × (Entry T × Bool)) (ws : List (ℕ × (Entry T × Bool)))
      → first_cell ws ≡ some c
      → (ys : List (ℕ × (Entry T × Bool))) × (ws ≡ c ∷ ys)
  starts c [] f = cc
  starts c (x ∷ xs) f = (xs, ap (λ d. d ∷ xs) (some-injective f))
    where
      some-injective : {a b : ℕ × (Entry T × Bool)} → some a ≡ some b → a ≡ b
      some-injective f = cc

  abbrev Finds : ℕ → ℕ → ℕ → LockFreeList → Heap (Entry T) → List (ℕ × (Entry T × Bool)) → Type 0
  Finds retry k key l h ws =
      (pred curr : ℕ) × (h' : Heap (Entry T)) × (locate (suc retry) k h l.head key
        ≡ ok ((pred, curr), h'))
      × Located l key h h' ws pred curr

  locate-head :
      (retry k key : ℕ) (l : LockFreeList) (h : Heap (Entry T)) (ys : List (ℕ × (Entry T × Bool)))
      → int_min < key
      → key < int_max
      → IsMarked l h ((l.head, (entry none int_min, false)) ∷ ys)
      → length ((l.head, (entry none int_min, false)) ∷ ys) ≤ k
      → Finds retry k key l h ((l.head, (entry none int_min, false)) ∷ ys)
  unfolding locate
  locate-head retry k key l h ys above below s enough =
      let live : reaches key ys ≡ true =
        reaches-lower key int_max ys (omega (arith, below)) (ground (arith, s.reach)) in
      let (pred, curr, h', done, cs, stop, same) =
        hop-Stop k key l.tail h l.head (entry none int_min) ys s.cells (omega (arith, enough)) above
          live in
      (
        pred,
        curr,
        h',
        rw (get-view h l.head (entry none int_min) false (head_of l.tail ys) s.cells.0 s.cells.2)
            (rw done refl),
        record {
          kept = (l.head, (entry none int_min, false)) ∷ cut key ys;
          marked = record {
            cells = cs;
            first = refl;
            order = Above-cut int_min key ys s.order;
            reach = ap (λ b. (leb int_max int_min) || b) (reaches-cut int_max key ys) ∙ s.reach;
          };
          place = stop;
          members = λ j. ap (λ b. (int_min == j) || b) (has_live-cut j key ys);
          same = λ a o. same a (ground (arith, o)) (ground (arith, o));
        },
      )

  -- `locate` stops at two neighbours that are unmarked and have the key between theirs. It takes
  -- marked nodes out, and changes neither the keys of the set nor other nodes.
  pub locate-Located :
      (retry k key : ℕ) (l : LockFreeList) (h : Heap (Entry T)) (ws : List (ℕ × (Entry T × Bool)))
      → IsMarked l h ws
      → int_min < key
      → key < int_max
      → length ws ≤ k
      → (pred curr : ℕ) × (h' : Heap (Entry T)) × (locate (suc retry) k h l.head key
          ≡ ok ((pred, curr), h'))
        × Located l key h h' ws pred curr
  locate-Located retry k key l h ws s above below enough =
      let (ys, e) = starts (l.head, (entry none int_min, false)) ws s.first in
      subst (λ vs. IsMarked l h vs → length vs ≤ k → Finds retry k key l h vs) (sym e)
        (locate-head retry k key l h ys above below) s enough
