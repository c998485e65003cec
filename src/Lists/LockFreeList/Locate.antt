-- ===== src/Lists/LockFreeList/Locate.antt =====
-- `locate` of `LockFreeList` while no other thread moves.
use tl2_cpp.Common.{
  ℕ, zero, suc, ◌<◌, ◌≤◌, ◌≡◌, refl, sym, ap, ◌∙◌, Bool, true, false, not, ◌&&◌, ◌||◌, some, List,
  [], ◌∷◌, ◌++◌, ◌==◌, leb, if◌then◌else◌, length, arith, update, Bool-cases, inl, inr, eq_of_==,
}
use tl2_cpp.Common.Res.{ok}
use tl2_cpp.Heap.{node, Heap}
use tl2_cpp.Heap.Cells.{head_of, has, Cells, Cells-frame}
use tl2_cpp.Lists.Sorted.{Entry}
use tl2_cpp.Lists.LockFreeList.{pack, hop}
use tl2_cpp.Lists.LockFreeList.Marked.{
  unpacked, view, view-even, at-view, get-view, view-update, compare_and_set-view,
}

module _ {T : Type 0} where
  -- The cells behind one with a smaller key, after `locate`: the marked ones before the first
  -- unmarked one whose key is at least `key` are taken out.
  unfoldable pub cut : ℕ → List (ℕ × (Entry T × Bool)) → List (ℕ × (Entry T × Bool))
  cut key [] = []
  cut key ((q, (e, m)) ∷ xs) =
      if m then cut key xs else if leb key e.key then (q, (e, m)) ∷ xs else (q, (e, m)) ∷ cut key xs

  -- Some unmarked cell has a key that is at least `key`.
  abbrev pub reaches : ℕ → List (ℕ × (Entry T × Bool)) → Bool
  reaches key [] = false
  reaches key ((q, (e, m)) ∷ xs) = (not m && leb key e.key) || reaches key xs

  -- Some unmarked cell has the key.
  abbrev pub has_live : ℕ → List (ℕ × (Entry T × Bool)) → Bool
  has_live key [] = false
  has_live key ((q, (e, m)) ∷ xs) = (not m && (e.key == key)) || has_live key xs

  has-cut :
      (a key : ℕ) (xs : List (ℕ × (Entry T × Bool))) → has a xs ≡ false → has a (cut key xs) ≡ false
  unfolding cut
  has-cut a key [] o = refl
  has-cut a key ((q, (e, true)) ∷ xs) o = has-cut a key xs (ground (arith, o))
  has-cut a key ((q, (e, false)) ∷ xs) o = ground (arith, o, has-cut a key xs (ground (arith, o)))

  -- Taking out marked cells changes no membership.
  pub has_live-cut :
      (k key : ℕ) (xs : List (ℕ × (Entry T × Bool))) → has_live k (cut key xs) ≡ has_live k xs
  unfolding cut
  has_live-cut k key [] = refl
  has_live-cut k key ((q, (e, true)) ∷ xs) = has_live-cut k key xs
  has_live-cut k key ((q, (e, false)) ∷ xs) = ground (arith, has_live-cut k key xs)

  -- `pred` and `curr` are neighbours, unmarked, and the key is between theirs.
  pub record Stop (key : ℕ) (ws : List (ℕ × (Entry T × Bool))) (pred curr : ℕ) : Type 0 where
    pub front : List (ℕ × (Entry T × Bool))
    pub before : Entry T
    pub found : Entry T
    pub back : List (ℕ × (Entry T × Bool))
    pub whole : ws ≡ front ++ (pred, (before, false)) ∷ (curr, (found, false)) ∷ back
    pub below : before.key < key
    pub high : key ≤ found.key

  -- A marked cell behind the cell at `p` is taken out.
  skip-Cells :
      (stop : ℕ) (h : Heap (Entry T)) (p q : ℕ) (e f : Entry T) (zs : List (ℕ × (Entry T × Bool)))
      → Cells stop (view h) ((p, (e, false)) ∷ (q, (f, true)) ∷ zs)
      → Cells stop
          (view (update h p (some (node e (pack (head_of stop zs) false)))))
          ((p, (e, false)) ∷ zs)
  skip-Cells stop h p q e f zs c =
      let r = head_of stop zs in
      let even = view-even h q (f, true) r c.3.2 in
      let out : has p zs ≡ false = ground (arith, c.1) in
      (
        c.0,
        out,
        view-update h p e false r p even ∙ ground arith,
        Cells-frame stop (view h) (view (update h p (some (node e (pack r false))))) zs c.3.3
            (λ a i. view-update h p e false r a even ∙ elsewhere a i),
      )
    where
      has-out : has p zs ≡ false
      has-out = ground (arith, c.1)

      elsewhere :
          (a : ℕ)
          → has a zs ≡ true
          → update (view h) p (some (node (e, false) (head_of stop zs))) a ≡ view h a
      elsewhere a i = elim (Bool-cases (p == a)) [
        | inr o ↦ rw o refl
        | inl s ↦ absurd (ground (arith, i, ap (λ b. has b zs) (sym (eq_of_== p a s)) ∙ has-out))
      ]

  -- The inner loop of `locate`.
  pub hop-Stop :
      (k key stop : ℕ) (h : Heap (Entry T)) (p : ℕ) (e : Entry T) (ys : List (ℕ × (Entry T × Bool)))
      → Cells stop (view h) ((p, (e, false)) ∷ ys)
      → length ys < k
      → e.key < key
      → reaches key ys ≡ true
      → (pred curr : ℕ) × (h' : Heap (Entry T)) × (hop k h key p (head_of stop ys)
          ≡ ok (some (pred, curr), h'))
        × Cells stop (view h') ((p, (e, false)) ∷ cut key ys)
        × Stop key ((p, (e, false)) ∷ cut key ys) pred curr
        × ((a : ℕ) → has a ys ≡ false → (a == p) ≡ false → h' a ≡ h a)
  unfolding hop cut
  hop-Stop zero key stop h p e ys c enough lt r = absurd (omega (arith, enough))
  hop-Stop (suc k) key stop h p e [] c enough lt r = cc
  hop-Stop (suc k) key stop h p e ((q, (f, true)) ∷ zs) c enough lt r =
      let (raw, look) = at-view h q f true (head_of stop zs) c.3.0 c.3.2 in
      let (pred, curr, h', done, cs, s, same) =
        hop-Stop k key stop (update h p (some (node e (pack (head_of stop zs) false)))) p e zs
          (skip-Cells stop h p q e f zs c) (omega (arith, enough)) lt r in
      (
        pred,
        curr,
        h',
        rw (look, get-view h q f true (head_of stop zs) c.3.0 c.3.2)
            (rw (compare_and_set-view h p e q (head_of stop zs) false false c.0 c.2) done),
        cs,
        s,
        λ a o d. same a (ground (arith, o)) d ∙ ground (arith, d),
      )
  hop-Stop (suc k) key stop h p e ((q, (f, false)) ∷ zs) c enough lt r =
      let (raw, look) = at-view h q f false (head_of stop zs) c.3.0 c.3.2 in
      let see = get-view h q f false (head_of stop zs) c.3.0 c.3.2 in
      let choose =
        λ (b : Bool). if b then ok (some (p, q), h) else hop k h key q (head_of stop zs) in
      elim (Bool-cases (leb key f.key)) [
        | inl high ↦ (
          p,
          q,
          h,
          rw (look, see) (ap choose high),
          rw high c,
          rw high (record {
            front = [];
            before = e;
            found = f;
            back = zs;
            whole = refl;
            below = lt;
            high = ground (arith, high);
          }),
          λ a o d. refl,
        )
        | inr low ↦
            let (pred, curr, h', done, cs, s, same) =
              hop-Stop k key stop h q f zs c.3 (omega (arith, enough)) (ground (arith, low))
                (ground (arith, low, r)) in
            (
              pred,
              curr,
              h',
              rw (look, see) (ap choose low ∙ done),
              rw low (
                c.0,
                ground (arith, c.1, has-cut p key zs),
                ap unpacked (same p (ground (arith, c.1)) (ground (arith, c.1))) ∙ c.2,
                cs,
              ),
              rw low (record {
                front = (p, (e, false)) ∷ s.front;
                before = s.before;
                found = s.found;
                back = s.back;
                whole = ap (λ ws. (p, (e, false)) ∷ ws) s.whole;
                below = s.below;
                high = s.high;
              }),
              λ a o d. same a (ground (arith, o)) (ground (arith, o)),
            )
      ]
