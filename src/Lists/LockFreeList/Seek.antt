-- ===== src/Lists/LockFreeList/Seek.antt =====
-- `contains` of `LockFreeList` where no node is marked.
use tl2_cpp.Common.{
  ℕ, zero, suc, ◌≤◌, ◌≡◌, sym, ap, subst, ◌∙◌, Bool, true, false, not, ◌&&◌, ◌||◌, none, [], ◌∷◌,
  ◌==◌, if◌then◌else◌, leb, length, arith, Bool-cases, inl, inr,
}
use tl2_cpp.Common.Res.{ok}
use tl2_cpp.Heap.{Heap}
use tl2_cpp.Heap.Cells.{head_of, Cells}
use tl2_cpp.Lists.Sorted.{Entry, entry, int_min, int_max}
use tl2_cpp.Lists.Sorted.Ends.{IsInner}
use tl2_cpp.Lists.LockFreeList.{LockFreeList, seek_marked, contains}
use tl2_cpp.Lists.LockFreeList.Marked.{view, at-view, get-view}
use tl2_cpp.Lists.LockFreeList.Locate.{reaches, has_live}
use tl2_cpp.Lists.LockFreeList.Set.{IsMarked, Above, reaches-lower, starts}
use tl2_cpp.Lists.LockFreeList.Keys.{Marks, live-Above}

or_last : (a b : Bool) → b ≡ false → a ≡ (a || b)
or_last a b n = ground (arith, n)

or_miss : (a b : Bool) → a ≡ false → b ≡ (a || b)
or_miss a b n = ground (arith, n)

module _ {T : Type 0} where
  -- No cell is marked.
  abbrev pub unmarked : Marks T → Bool
  unmarked [] = true
  unmarked ((q, (e, m)) ∷ xs) = not m && unmarked xs

  seek_marked-has_live :
      (k key stop p : ℕ) (h : Heap (Entry T)) (e : Entry T) (ys : Marks T)
      → Cells stop (view h) ((p, (e, false)) ∷ ys)
      → unmarked ys ≡ true
      → Above e.key ys
      → reaches key ys ≡ true
      → length ys ≤ k
      → seek_marked k h key p ≡ ok (has_live key ys)
  unfolding seek_marked
  seek_marked-has_live k key stop p h e [] c u o r enough = cc
  seek_marked-has_live k key stop p h e ((q, (f, true)) ∷ zs) c u o r enough = cc
  seek_marked-has_live zero key stop p h e ((q, (f, false)) ∷ zs) c u o r enough =
      absurd (omega (arith, enough))
  seek_marked-has_live (suc k) key stop p h e ((q, (f, false)) ∷ zs) c u o r enough =
      let (raw, look) = at-view h q f false (head_of stop zs) c.3.0 c.3.2 in
      let choose = λ (b : Bool). if b then ok (f.key == key) else seek_marked k h key q in
      elim (Bool-cases (leb key f.key)) [
        | inl high ↦
            rw (get-view h p e false q c.0 c.2, look)
              (ap choose high
                ∙ ap ok (
                    or_last (f.key == key) (has_live key zs)
                      (live-Above key f.key zs o.1 (ground (arith, high)))))
        | inr low ↦
            rw (get-view h p e false q c.0 c.2, look)
              (ap choose low
                ∙ seek_marked-has_live k key stop q h f zs c.3 (ground (arith, u)) o.1
                    (ground (arith, low, r)) (omega (arith, enough))
                ∙ ap ok (or_miss (f.key == key) (has_live key zs) (ground (arith, low))))
      ]

  -- While no node is marked and no other thread moves, `contains` of an inner key answers whether the
  -- key is there.
  pub contains-has_live :
      (hash : T → ℕ) (k : ℕ) (x : T) (l : LockFreeList) (h : Heap (Entry T)) (ws : Marks T)
      → IsMarked l h ws
      → IsInner (hash x)
      → unmarked ws ≡ true
      → length ws ≤ k
      → contains hash k x l h ≡ ok (has_live (hash x) ws)
  unfolding contains
  contains-has_live hash k x l h ws s inner u enough =
      let (ys, e) = starts (l.head, (entry none int_min, false)) ws s.first in
      subst
        (λ vs.
          IsMarked l h vs
          → unmarked vs ≡ true
          → length vs ≤ k
          → seek_marked k h (hash x) l.head ≡ ok (has_live (hash x) vs))
        (sym e) (at_head ys) s u enough
    where
      at_head :
          (ys : Marks T)
          → IsMarked l h ((l.head, (entry none int_min, false)) ∷ ys)
          → unmarked ((l.head, (entry none int_min, false)) ∷ ys) ≡ true
          → length ((l.head, (entry none int_min, false)) ∷ ys) ≤ k
          → seek_marked k h (hash x) l.head
            ≡ ok (has_live (hash x) ((l.head, (entry none int_min, false)) ∷ ys))
      at_head ys s u enough =
          seek_marked-has_live k (hash x) l.tail l.head h (entry none int_min) ys s.cells u s.order
            (reaches-lower (hash x) int_max ys (omega (arith, inner.1)) (ground (arith, s.reach)))
            (omega (arith, enough))
          ∙ ap ok (or_miss (int_min == hash x) (has_live (hash x) ys) (ground (arith, inner.0)))
