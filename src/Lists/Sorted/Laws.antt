-- ===== src/Lists/Sorted/Laws.antt =====
-- What Sorted does between two nodes, for the cells as a whole.
use tl2_cpp.Common.{
  ℕ, ◌≡◌, ◌≢◌, refl, sym, ap, subst, ◌∙◌, true, false, not, none, some, List, [], ◌∷◌, ◌++◌, ◌==◌,
  if◌then◌else◌, arith, update, Bool-cases, inl, inr, Option,
}
use tl2_cpp.Common.Res.{ok}
use tl2_cpp.Heap.{Heap, Node, node, at, null, construct}
use tl2_cpp.Heap.Cells.{
  head_of, has, Cells, Cells-update, has-fresh, has-append, at-live, set_next-live, relink, middle,
  apart,
}
use tl2_cpp.Heap.Relink.{behind-front, unlink-Cells}
use tl2_cpp.Lists.Sorted.{Entry, entry, link, unlink}
use tl2_cpp.Lists.Sorted.Keys.{Ascending, has_key, insert_key, erase_key}
use tl2_cpp.Lists.Sorted.Split.{Low, Split, insert_key-front, erase_key-front, has_key-front}

module _ {T : Type 0} (stop : ℕ) (h : Heap (Entry T)) (key : ℕ) where
  -- The cells at a split, in their heap.
  record At (ws : List (ℕ × Entry T)) (pred curr : ℕ) (s : Split key ws pred curr) : Type 0 where
    pred_live : pred ≢ null
    pred_node : h pred ≡ some (node s.before curr)
    curr_live : curr ≢ null
    curr_node : h curr ≡ some (node s.found (head_of stop s.back))
    alone : has pred ((curr, s.found) ∷ s.back) ≡ false
    rest : Cells stop h ((curr, s.found) ∷ s.back)

  Split-At :
      (ws : List (ℕ × Entry T)) (pred curr : ℕ) (s : Split key ws pred curr)
      → Cells stop h ws
      → At ws pred curr s
  Split-At ws pred curr s c =
      let m : Cells stop h ((pred, s.before) ∷ (curr, s.found) ∷ s.back) =
        middle stop h s.front _ (subst (Cells stop h) s.whole c) in
      record {
        pred_live = m.0;
        alone = m.1;
        pred_node = m.2;
        rest = m.3;
        curr_live = m.3.0;
        curr_node = m.3.2;
      }

  has_key-Split :
      (ws : List (ℕ × Entry T)) (pred curr : ℕ) (s : Split key ws pred curr)
      → Ascending ws
      → has_key key ws ≡ (s.found.key == key)
  has_key-Split ws pred curr s asc =
      ap (has_key key) s.whole
      ∙ has_key-front key s.front s.back pred curr s.before s.found s.low s.below s.high
          (subst Ascending s.whole asc)

  -- What is behind a split has no address of what is before it.
  behind-Split :
      (ws : List (ℕ × Entry T)) (pred curr : ℕ) (s : Split key ws pred curr)
      → Cells stop h ws
      → (a : ℕ) → has a (s.front ++ (pred, s.before) ∷ []) ≡ true
      → has a ((curr, s.found) ∷ s.back) ≡ false
  behind-Split ws pred curr s c =
      behind-front stop h s.front pred s.before ((curr, s.found) ∷ s.back)
        (subst (Cells stop h) s.whole c)

  fresh-Split :
      (p : ℕ) (ws : List (ℕ × Entry T)) (pred curr : ℕ) (s : Split key ws pred curr)
      → Cells stop h ws
      → h p ≡ none
      → (has p s.front ≡ false) × ((p == pred) ≡ false) × (has p ((curr, s.found) ∷ s.back) ≡ false)
  fresh-Split p ws pred curr s c free =
      let out : has p (s.front ++ (pred, s.before) ∷ (curr, s.found) ∷ s.back) ≡ false =
        has-fresh stop p h _ (subst (Cells stop h) s.whole c) free in
      let all = sym (has-append p s.front ((pred, s.before) ∷ (curr, s.found) ∷ s.back)) ∙ out in
      (ground (arith, all), ground (arith, all), ground (arith, all))

  pred-front :
      (ws : List (ℕ × Entry T)) (pred curr : ℕ) (s : Split key ws pred curr)
      → Cells stop h ws
      → has pred s.front ≡ false
  pred-front ws pred curr s c =
      apart stop pred h s.front _ (subst (Cells stop h) s.whole c) (ground arith)

  linked :
      (p : ℕ) (e : Entry T) (ws : List (ℕ × Entry T)) (pred curr : ℕ) (s : Split key ws pred curr)
      → Cells stop h ws
      → p ≢ null
      → h p ≡ none
      → Cells stop
          (update (construct h p e curr) pred (some (node s.before p)))
          (s.front ++ (pred, s.before) ∷ (p, e) ∷ (curr, s.found) ∷ s.back)
  linked p e ws pred curr s c ne free =
      let t = Split-At ws pred curr s c in
      let (out, other, tail) = fresh-Split p ws pred curr s c free in
      let first = pred-front ws pred curr s c in
      let h' = update (construct h p e curr) pred (some (node s.before p)) in
      relink stop h h' s.front pred s.before ((curr, s.found) ∷ s.back)
        ((p, e) ∷ (curr, s.found) ∷ s.back) (subst (Cells stop h) s.whole c)
        (λ a i. ground (arith, i, out, first)) (ground arith)
        (
          ne,
          tail,
          ground (arith, other),
          Cells-update stop (construct h p e curr) pred (some (node s.before p))
              ((curr, s.found) ∷ s.back)
              (Cells-update stop h p (some (node e curr)) ((curr, s.found) ∷ s.back) t.rest tail)
              t.alone,
        )
        (λ a i.
          let far = behind-Split ws pred curr s c a i in
          let split = sym (has-append a s.front ((pred, s.before) ∷ [])) ∙ i in
          ground (arith, far, split, out, other))

  insert_key-Split :
      (p : ℕ) (x : Entry T) (ws : List (ℕ × Entry T)) (pred curr : ℕ) (s : Split key ws pred curr)
      → x.key ≡ key
      → insert_key p x ws ≡ s.front ++ (pred, s.before) ∷ (p, x) ∷ (curr, s.found) ∷ s.back
  insert_key-Split p x ws pred curr s e =
      ap (insert_key p x) s.whole
      ∙ insert_key-front p x s.front s.back pred curr s.before s.found
          (subst (λ k. Low k s.front) (sym e) s.low) (omega (arith, s.below, e))
          (omega (arith, s.high, e))

  kept :
      (p pred : ℕ) (c : Option (Node (Entry T))) {n : Node (Entry T)}
      → (p == pred) ≡ false
      → h pred ≡ some n
      → update h p c pred ≡ some n
  kept p pred c other here = rw other here

  unlinked :
      (ws : List (ℕ × Entry T)) (pred curr : ℕ) (s : Split key ws pred curr)
      → Cells stop h ws
      → Cells stop
          (update h pred (some (node s.before (head_of stop s.back))))
          (s.front ++ (pred, s.before) ∷ s.back)
  unlinked ws pred curr s c =
      unlink-Cells stop h s.front pred curr s.before s.found s.back (subst (Cells stop h) s.whole c)

  erase_key-Split :
      (ws : List (ℕ × Entry T)) (pred curr : ℕ) (s : Split key ws pred curr)
      → (s.found.key == key) ≡ true
      → erase_key key ws ≡ s.front ++ (pred, s.before) ∷ s.back
  erase_key-Split ws pred curr s hit =
      ap (erase_key key) s.whole
      ∙ erase_key-front key s.front s.back pred curr s.before s.found s.low s.below hit

  -- A link at a split puts the new cell in its place, unless the key is there already.
  pub link-Split :
      (p : ℕ) (x : T) (ws : List (ℕ × Entry T)) (pred curr : ℕ)
      → Split key ws pred curr
      → Cells stop h ws
      → Ascending ws
      → p ≢ null
      → h p ≡ none
      → (h' : Heap (Entry T)) × (link p x key h pred curr ≡ ok (not (has_key key ws), h'))
        × Cells stop h' (if has_key key ws then ws else insert_key p (entry (some x) key) ws)
  unfolding link
  link-Split p x ws pred curr s c asc ne free =
      let t = Split-At ws pred curr s c in
      let known = has_key-Split ws pred curr s asc in
      let look = at-live h curr s.found (head_of stop s.back) t.curr_live t.curr_node in
      elim (Bool-cases (s.found.key == key)) [
        | inl hit ↦ (
          h,
          rw (look, hit) (ap (λ i. ok (not i, h)) (sym (known ∙ hit))),
          subst (λ i. Cells stop h (if i then ws else insert_key p (entry (some x) key) ws))
              (sym (known ∙ hit)) c,
        )
        | inr miss ↦
            let h₀ = construct h p (entry (some x) key) curr in
            let (out, other, tail) = fresh-Split p ws pred curr s c free in
            let h' = update h₀ pred (some (node s.before p)) in
            (
              h',
              rw (look, miss)
                  (rw
                    (set_next-live h₀ pred s.before curr p t.pred_live
                      (kept p pred (some (node (entry (some x) key) curr)) other t.pred_node))
                    (ap (λ i. ok (not i, h')) (sym (known ∙ miss)))),
              subst (λ i. Cells stop h' (if i then ws else insert_key p (entry (some x) key) ws))
                  (sym (known ∙ miss))
                  (subst (Cells stop h')
                    (sym (insert_key-Split p (entry (some x) key) ws pred curr s refl))
                    (linked p (entry (some x) key) ws pred curr s c ne free)),
            )
      ]

  -- An unlink at a split takes the cell with the key out, if there is one.
  pub unlink-Split :
      (ws : List (ℕ × Entry T)) (pred curr : ℕ)
      → Split key ws pred curr
      → Cells stop h ws
      → Ascending ws
      → (h' : Heap (Entry T)) × (unlink key h pred curr ≡ ok (has_key key ws, h'))
        × Cells stop h' (if has_key key ws then erase_key key ws else ws)
  unfolding unlink
  unlink-Split ws pred curr s c asc =
      let t = Split-At ws pred curr s c in
      let known = has_key-Split ws pred curr s asc in
      let look = at-live h curr s.found (head_of stop s.back) t.curr_live t.curr_node in
      elim (Bool-cases (s.found.key == key)) [
        | inr miss ↦ (
          h,
          rw (look, miss) (ap (λ i. ok (i, h)) (sym (known ∙ miss))),
          subst (λ i. Cells stop h (if i then erase_key key ws else ws)) (sym (known ∙ miss)) c,
        )
        | inl hit ↦
            let h' = update h pred (some (node s.before (head_of stop s.back))) in
            (
              h',
              rw (look, hit)
                  (rw
                    (set_next-live h pred s.before curr (head_of stop s.back) t.pred_live
                      t.pred_node)
                    (ap (λ i. ok (i, h')) (sym (known ∙ hit)))),
              subst (λ i. Cells stop h' (if i then erase_key key ws else ws)) (sym (known ∙ hit))
                  (subst (Cells stop h') (sym (erase_key-Split ws pred curr s hit))
                    (unlinked ws pred curr s c)),
            )
      ]

  -- The two nodes of a split; the second tells whether the key is there.
  pub Split-nodes :
      (ws : List (ℕ × Entry T)) (pred curr : ℕ)
      → Split key ws pred curr
      → Cells stop h ws
      → Ascending ws
      → (n o : Node (Entry T)) × (at h pred ≡ ok n)
        × (at h curr ≡ ok o)
        × ((o.data_of.key == key) ≡ has_key key ws)
  Split-nodes ws pred curr s c asc =
      let t = Split-At ws pred curr s c in
      (
        node s.before curr,
        node s.found (head_of stop s.back),
        at-live h pred s.before curr t.pred_live t.pred_node,
        at-live h curr s.found (head_of stop s.back) t.curr_live t.curr_node,
        sym (has_key-Split ws pred curr s asc),
      )
