-- ===== src/Lists/LinkedList/Remove.antt =====
-- `LinkedList::remove`.
use tl2_cpp.Common.{
  ℕ, zero, suc, ◌+◌, ◌-◌, ◌^◌, ◌%◌, ◌<◌, ◌≡◌, refl, sym, ap, subst, ◌∙◌, Bool, true, false, none,
  some, List, [], ◌∷◌, ◌++◌, ◌==◌, if◌then◌else◌, length, arith, update, ==_refl, Bool-cases, inl,
  inr,
}
use tl2_cpp.Common.Res.{ok}
use tl2_cpp.Heap.{Heap, Node, node, null, at, set_next, delete}
use tl2_cpp.Heap.Cells.{
  head_of, has, Cells, Cells-update, at-live, set_next-live, delete-live, middle, has-append,
  head_of-append,
}
use tl2_cpp.Heap.Relink.{unlink-Cells, unlink-has}
use tl2_cpp.Lists.LinkedList.{LinkedList, locate_loop, locate, take_out, remove}
use tl2_cpp.Lists.LinkedList.Cells.{Holds, items}
use tl2_cpp.Lists.LinkedList.Search.{any}
use tl2_cpp.Lists.LinkedList.Locate.{
  erase, Place, locate_loop-Place, erase-none, length-out, has-out, head-apart,
}

module _ {T : Type 0} (matches : T → T → Bool) where
  abbrev fewer : ℕ → ℕ
  fewer n = (n + (2 ^ 64 - 1)) % 2 ^ 64

  remove-none :
      (k : ℕ) (x : T) (l : LinkedList) (h : Heap T) (q : ℕ)
      → locate matches k h x l.head ≡ ok (q, null)
      → remove matches k x l h ≡ ok (false, l, h)
  unfolding remove take_out delete
  remove-none k x l h q e = rw e refl

  remove-first :
      (k : ℕ) (x : T) (l : LinkedList) (h g : Heap T) (q : ℕ) (n : Node T)
      → locate matches k h x l.head ≡ ok (q, l.head)
      → (l.head == null) ≡ false
      → at h l.head ≡ ok n
      → delete h l.head ≡ ok g
      → remove matches k x l h ≡ ok (true, record { head = n.next; size = fewer l.size }, g)
  unfolding remove take_out
  remove-first k x l h g q n e ne look gone =
      rw (e, ne, ==_refl l.head) (rw look (rw gone (rw ne refl)))

  remove-inner :
      (k : ℕ) (x : T) (l : LinkedList) (h f g : Heap T) (q c : ℕ) (n : Node T)
      → locate matches k h x l.head ≡ ok (q, c)
      → (c == null) ≡ false
      → (c == l.head) ≡ false
      → at h c ≡ ok n
      → set_next h q n.next ≡ ok f
      → delete f c ≡ ok g
      → remove matches k x l h ≡ ok (true, record l { size = fewer l.size }, g)
  unfolding remove take_out
  remove-inner k x l h f g q c n e ne other look linked gone =
      rw (e, ne, other, look, linked) (rw (gone, ne) refl)

  -- What `remove` leaves: the list has the items without the first match, the node that held it is
  -- deleted, and the nodes of others are as before.
  pub record Removal (x : T) (h : Heap T) (xs : List (ℕ × T)) (l' : LinkedList) (h' : Heap T)
      : Type 0 where
    pub cells : List (ℕ × T)
    pub holds : Holds l' h' cells
    pub left : items cells ≡ erase matches x (items xs)
    pub deleted : (a : ℕ) → has a xs ≡ true → has a cells ≡ false → h' a ≡ none
    pub same : (a : ℕ) → has a xs ≡ false → h' a ≡ h a

  -- Nothing is taken out.
  Removal-none :
      (x : T) (l : LinkedList) (h : Heap T) (xs : List (ℕ × T))
      → Holds l h xs
      → any matches x (items xs) ≡ false
      → Removal x h xs l h
  Removal-none x l h xs s no_match = record {
    cells = xs;
    holds = s;
    left = sym (erase-none matches x (items xs) no_match);
    deleted = λ a i o. absurd (ground (arith, i, o));
    same = λ a _. refl;
  }

  -- The first cell is taken out.
  Removal-first :
      (x : T) (l : LinkedList) (h : Heap T) (p : ℕ) (e : T) (ys : List (ℕ × T))
      → Holds l h ((p, e) ∷ ys)
      → matches e x ≡ true
      → Removal x h
          ((p, e) ∷ ys)
          (record { head = head_of null ys; size = fewer l.size })
          (update h p none)
  unfolding erase
  Removal-first x l h p e ys s hit = record {
    cells = ys;
    holds = record {
      cells = Cells-update null h p none ys s.cells.3 s.cells.1;
      head = refl;
      size = omega (arith, s.size);
    };
    left = rw hit refl;
    deleted = λ a i o. ground (arith, i, o);
    same = λ a out. ground (arith, out);
  }

  -- A later cell is taken out.
  Removal-inner :
      (x : T) (l : LinkedList) (h : Heap T) (xs : List (ℕ × T)) (pred curr : ℕ)
      → Holds l h xs
      → (w : Place matches x xs pred curr)
      → Removal x h xs
          (record l { size = fewer l.size })
          (update (update h pred (some (node w.before (head_of null w.back)))) curr none)
  Removal-inner x l h xs pred curr s w =
      let rest = w.front ++ (pred, w.before) ∷ w.back in
      let c = subst (Cells null h) w.whole s.cells in
      let split =
        λ (a : ℕ). ap (has a) w.whole ∙ has-out a w.front pred curr w.before w.found w.back in
      record {
        cells = rest;
        holds = record {
          cells =
              Cells-update null (update h pred (some (node w.before (head_of null w.back)))) curr
                none rest (unlink-Cells null h w.front pred curr w.before w.found w.back c)
                (unlink-has null h w.front pred curr w.before w.found w.back c);
          head =
              s.head
              ∙ ap (head_of null) w.whole
              ∙ head_of-append null w.front pred w.before ((curr, w.found) ∷ w.back) w.back;
          size = omega (
            arith,
            s.size,
            ap length w.whole,
            length-out w.front pred curr w.before w.found w.back,
          );
        };
        left = sym w.gone;
        deleted = λ a i o. ground (arith, split a, i, o);
        same =
            λ a out. ground (arith, split a, out, has-append a w.front ((pred, w.before) ∷ w.back));
      }

  Removed : ℕ → T → LinkedList → Heap T → List (ℕ × T) → Type 0
  Removed k x l h xs =
      (l' : LinkedList) × (h' : Heap T) × (remove matches k x l h
        ≡ ok (any matches x (items xs), l', h'))
      × Removal x h xs l' h'

  remove-Place :
      (k : ℕ) (x : T) (l : LinkedList) (h : Heap T) (xs : List (ℕ × T)) (pred curr : ℕ)
      → Holds l h xs
      → Place matches x xs pred curr
      → locate matches k h x l.head ≡ ok (pred, curr)
      → any matches x (items xs) ≡ true
      → Removed k x l h xs
  unfolding Removed
  remove-Place k x l h xs pred curr s w located there =
      let c = subst (Cells null h) w.whole s.cells in
      let linked = middle null h w.front ((pred, w.before) ∷ (curr, w.found) ∷ w.back) c in
      let other : (curr == l.head) ≡ false =
        ap (λ a. curr == a) (s.head ∙ ap (head_of null) w.whole)
        ∙ head-apart h w.front pred curr w.before w.found w.back c in
      let n = node w.found (head_of null w.back) in
      let g = update h pred (some (node w.before (head_of null w.back))) in
      (
        record l { size = fewer l.size },
        update g curr none,
        remove-inner k x l h g (update g curr none) pred curr n located (ground (arith, linked.3.0))
              other (at-live h curr w.found (head_of null w.back) linked.3.0 linked.3.2)
              (set_next-live h pred w.before curr (head_of null w.back) linked.0 linked.2)
              (delete-live g curr w.found (head_of null w.back) linked.3.0
                (ground (arith, linked.1, linked.3.2)))
            ∙ ap (λ b. ok (b, record l { size = fewer l.size }, update g curr none)) (sym there),
        Removal-inner x l h xs pred curr s w,
      )

  -- `remove` takes the first match out, deletes its node and answers whether there is one. Nodes
  -- that are not of the list stay as they are.
  pub remove-Removal :
      (k : ℕ) (x : T) (l : LinkedList) (h : Heap T) (xs : List (ℕ × T))
      → Holds l h xs
      → length xs < k
      → (l' : LinkedList) × (h' : Heap T) × (remove matches k x l h
          ≡ ok (any matches x (items xs), l', h'))
        × Removal x h xs l' h'
  unfolding locate locate_loop Removed
  remove-Removal zero x l h xs s enough = absurd (omega (arith, enough))
  remove-Removal (suc k) x l h [] s enough =
      (l, h, remove-none (suc k) x l h null (rw s.head refl), Removal-none x l h [] s refl)
  remove-Removal (suc k) x l h ((p, e) ∷ ys) s enough =
      let live : (p == null) ≡ false = ground (arith, s.cells.0) in
      let look = at-live h p e (head_of null ys) s.cells.0 s.cells.2 in
      let go =
        λ (b : Bool). if b then ok (null, p) else locate_loop matches k h x p (head_of null ys) in
      let start : locate matches (suc k) h x l.head ≡ go (matches e x) =
        ap (locate matches (suc k) h x) s.head ∙ rw live (rw look refl) in
      let l' : LinkedList = record { head = head_of null ys; size = fewer l.size } in
      elim (Bool-cases (matches e x)) [
        | inl hit ↦ (
          l',
          update h p none,
          remove-first (suc k) x l h (update h p none) null (node e (head_of null ys))
                (start ∙ ap go hit ∙ ap (λ a. ok (null, a)) (sym s.head))
                (ap (λ a. a == null) s.head ∙ live) (ap (at h) s.head ∙ look)
                (ap (delete h) s.head ∙ delete-live h p e (head_of null ys) s.cells.0 s.cells.2)
              ∙ ap (λ b. ok (b, l', update h p none)) (sym (rw hit refl)),
          Removal-first x l h p e ys s hit,
        )
        | inr miss ↦
            elim (locate_loop-Place matches k h x p e ys s.cells.3 (omega (arith, enough)) miss) [
              | inl (r, done, none_there) ↦ (
                l,
                h,
                remove-none (suc k) x l h r (start ∙ ap go miss ∙ done)
                    ∙ ap (λ b. ok (b, l, h)) (sym (rw miss none_there)),
                Removal-none x l h ((p, e) ∷ ys) s (rw miss none_there),
              )
              | inr (pred, curr, done, there, w) ↦
                  remove-Place (suc k) x l h ((p, e) ∷ ys) pred curr s w (start ∙ ap go miss ∙ done)
                    (rw miss there)
            ]
      ]
