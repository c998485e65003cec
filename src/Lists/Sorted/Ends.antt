-- ===== src/Lists/Sorted/Ends.antt =====
-- A sorted list between its two end nodes, as a set of keys.
use tl2_cpp.Common.{
  ℕ, suc, ◌<◌, ◌≤◌, ◌≡◌, ◌≢◌, refl, ap, subst, ◌∙◌, Bool, true, false, not, none, some, List, [],
  ◌∷◌, ◌++◌, ◌==◌, ltb, length, length-append, if◌then◌else◌, arith,
}
use tl2_cpp.Common.Res.{ok}
use tl2_cpp.Heap.{Heap, null}
use tl2_cpp.Heap.Cells.{head_of, Cells, at-live}
use tl2_cpp.Lists.Sorted.{Entry, entry, int_min, int_max, locate, seek, link, unlink}
use tl2_cpp.Lists.Sorted.Keys.{
  Above, has_key, insert_key, erase_key, insert_key-Above, erase_key-Above,
}
use tl2_cpp.Lists.Sorted.Split.{Split, scan-Split, seek-has_key, reaches}
use tl2_cpp.Lists.Sorted.Laws.{link-Split, unlink-Split}

-- A key between those of the end nodes.
abbrev pub IsInner : ℕ → Type 0
IsInner key = (int_min < key) × (key < int_max)

ltb-of_lt : (a b : ℕ) → a < b → ltb a b ≡ true
ltb-of_lt a b h = ground arith

==-of_lt : (a b : ℕ) → a < b → (a == b) ≡ false
==-of_lt a b h = ground arith

module _ {T : Type 0} where
  -- All cells: those of `mid` between the two end nodes.
  abbrev pub full : (head tail : ℕ) → List (ℕ × Entry T) → List (ℕ × Entry T)
  full head tail mid = (head, entry none int_min) ∷ (mid ++ (tail, entry none int_max) ∷ [])

  -- The heap holds the list with the cells `mid`; behind its tail stands `stop`.
  pub record IsList (stop head tail : ℕ) (h : Heap (Entry T)) (mid : List (ℕ × Entry T))
      : Type 0 where
    pub cells : Cells stop h (full head tail mid)
    pub order : Above int_min (mid ++ (tail, entry none int_max) ∷ [])

  pub reaches-tail :
      (key tail : ℕ) (mid : List (ℕ × Entry T))
      → key < int_max
      → reaches key (mid ++ (tail, entry none int_max) ∷ []) ≡ true
  reaches-tail key tail [] lt = ground arith
  reaches-tail key tail ((q, d) ∷ mid) lt = ground (arith, reaches-tail key tail mid lt)

  has_key-tail :
      (key tail : ℕ) (mid : List (ℕ × Entry T))
      → key < int_max
      → has_key key (mid ++ (tail, entry none int_max) ∷ []) ≡ has_key key mid
  has_key-tail key tail [] lt = ground arith
  has_key-tail key tail ((q, d) ∷ mid) lt = ground (arith, has_key-tail key tail mid lt)

  insert_key-tail :
      (p tail : ℕ) (e : Entry T) (mid : List (ℕ × Entry T))
      → e.key < int_max
      → insert_key p e (mid ++ (tail, entry none int_max) ∷ [])
        ≡ insert_key p e mid ++ (tail, entry none int_max) ∷ []
  unfolding insert_key
  insert_key-tail p tail e [] lt = ground arith
  insert_key-tail p tail e ((q, d) ∷ mid) lt = ground (arith, insert_key-tail p tail e mid lt)

  erase_key-tail :
      (key tail : ℕ) (mid : List (ℕ × Entry T))
      → has_key key mid ≡ true
      → erase_key key (mid ++ (tail, entry none int_max) ∷ [])
        ≡ erase_key key mid ++ (tail, entry none int_max) ∷ []
  unfolding erase_key
  erase_key-tail key tail [] i = cc
  erase_key-tail key tail ((q, d) ∷ mid) i = ground (arith, erase_key-tail key tail mid)

  module _ (stop head tail : ℕ) (h : Heap (Entry T)) (mid : List (ℕ × Entry T))
      (s : IsList stop head tail h mid) (fuel key : ℕ) (inner : IsInner key)
      (enough : length mid < fuel) where
    pub has_key-full : has_key key (full head tail mid) ≡ has_key key mid
    has_key-full = ground (arith, has_key-tail key tail mid inner.1, inner.0)

    size : length (mid ++ (tail, entry none int_max) ∷ []) ≤ fuel
    size = omega (arith, enough, length-append mid ((tail, entry none int_max) ∷ []))

    full-insert_key :
        (p : ℕ) (e : Entry T)
        → e.key ≡ key
        → insert_key p e (full head tail mid) ≡ full head tail (insert_key p e mid)
    unfolding insert_key
    full-insert_key p e same =
        ap
          (λ b.
            if b
            then (head, entry none int_min)
              ∷ insert_key p e (mid ++ (tail, entry none int_max) ∷ [])
            else (p, e) ∷ full head tail mid)
          (ltb-of_lt int_min e.key (omega (arith, inner.0, same)))
        ∙ ap (λ ys. (head, entry none int_min) ∷ ys)
            (insert_key-tail p tail e mid (omega (arith, inner.1, same)))

    full-erase_key :
        has_key key mid ≡ true
        → erase_key key (full head tail mid) ≡ full head tail (erase_key key mid)
    unfolding erase_key
    full-erase_key i =
        ap
          (λ b.
            if b
            then mid ++ (tail, entry none int_max) ∷ []
            else (head, entry none int_min)
              ∷ erase_key key (mid ++ (tail, entry none int_max) ∷ []))
          (==-of_lt int_min key inner.0)
        ∙ ap (λ ys. (head, entry none int_min) ∷ ys) (erase_key-tail key tail mid i)

    pub locate-Split :
        (pred curr : ℕ) × (locate fuel h head key ≡ ok (pred, curr))
        × Split key (full head tail mid) pred curr
    unfolding locate
    locate-Split =
        let (pred, curr, done, split) =
          scan-Split fuel stop key head (entry none int_min) h
            (mid ++ (tail, entry none int_max) ∷ []) s.cells.3 size inner.0
            (reaches-tail key tail mid inner.1) in
        (
          pred,
          curr,
          rw
              (at-live h head (entry none int_min)
                (head_of stop (mid ++ (tail, entry none int_max) ∷ [])) s.cells.0 s.cells.2)
              done,
          split,
        )

    -- `contains` from the first node behind the head, and from the head.
    pub seek-first :
        seek fuel h key (head_of stop (mid ++ (tail, entry none int_max) ∷ []))
        ≡ ok (has_key key mid)
    seek-first =
        seek-has_key fuel stop key h int_min _ s.cells.3 size s.order
          (reaches-tail key tail mid inner.1)
        ∙ ap ok (has_key-tail key tail mid inner.1)

    pub seek-head : seek (suc fuel) h key head ≡ ok (has_key key mid)
    unfolding seek
    seek-head =
        rw
          (at-live h head (entry none int_min)
            (head_of stop (mid ++ (tail, entry none int_max) ∷ [])) s.cells.0 s.cells.2)
          (ap
              (λ b.
                if b
                then seek fuel h key (head_of stop (mid ++ (tail, entry none int_max) ∷ []))
                else ok (int_min == key))
              (ltb-of_lt int_min key inner.0)
            ∙ seek-first)

    pub link-at :
        (pred curr : ℕ)
        → Split key (full head tail mid) pred curr
        → (p : ℕ) (x : T) → p ≢ null
        → h p ≡ none
        → (h' : Heap (Entry T)) × (link p x key h pred curr ≡ ok (not (has_key key mid), h'))
          × IsList stop head tail h'
              (if has_key key mid then mid else insert_key p (entry (some x) key) mid)
    link-at pred curr split p x ne free =
        let (h', linked, cells) =
          link-Split stop h key p x (full head tail mid) pred curr split s.cells s.order ne free in
        (
          h',
          linked ∙ ap (λ b. ok (not b, h')) has_key-full,
          inserted p x h' (has_key key mid) refl (
              subst
                (λ b. Cells stop h' (
                  if b
                  then full head tail mid
                  else insert_key p (entry (some x) key) (full head tail mid)))
                has_key-full cells),
        )
      where
        inserted :
            (p : ℕ) (x : T) (h' : Heap (Entry T)) (b : Bool)
            → has_key key mid ≡ b
            → Cells stop h' (
                if b
                then full head tail mid
                else insert_key p (entry (some x) key) (full head tail mid))
            → IsList stop head tail h' (if b then mid else insert_key p (entry (some x) key) mid)
        inserted p x h' true i c = record { cells = c; order = s.order }
        inserted p x h' false i c = record {
          cells = subst (Cells stop h') (full-insert_key p (entry (some x) key) refl) c;
          order = subst (Above int_min) (insert_key-tail p tail (entry (some x) key) mid inner.1) (
              insert_key-Above int_min p (entry (some x) key) _ s.order inner.0
                (has_key-tail key tail mid inner.1 ∙ i));
        }

    -- `add` between the two nodes that `locate` finds, with the new node at `p`.
    pub link-IsList :
        (p : ℕ) (x : T)
        → p ≢ null
        → h p ≡ none
        → (pred curr : ℕ) × (h' : Heap (Entry T)) × (locate fuel h head key ≡ ok (pred, curr))
          × (link p x key h pred curr ≡ ok (not (has_key key mid), h'))
          × IsList stop head tail h'
              (if has_key key mid then mid else insert_key p (entry (some x) key) mid)
    link-IsList p x ne free =
        let (pred, curr, done, split) = locate-Split in
        let (h', linked, set) = link-at pred curr split p x ne free in
        (pred, curr, h', done, linked, set)

    pub unlink-at :
        (pred curr : ℕ)
        → Split key (full head tail mid) pred curr
        → (h' : Heap (Entry T)) × (unlink key h pred curr ≡ ok (has_key key mid, h'))
          × IsList stop head tail h' (if has_key key mid then erase_key key mid else mid)
    unlink-at pred curr split =
        let (h', unlinked, cells) =
          unlink-Split stop h key (full head tail mid) pred curr split s.cells s.order in
        (
          h',
          unlinked ∙ ap (λ b. ok (b, h')) has_key-full,
          erased h' (has_key key mid) refl (
              subst
                (λ b.
                  Cells stop h'
                    (if b then erase_key key (full head tail mid) else full head tail mid))
                has_key-full cells),
        )
      where
        erased :
            (h' : Heap (Entry T)) (b : Bool)
            → has_key key mid ≡ b
            → Cells stop h' (if b then erase_key key (full head tail mid) else full head tail mid)
            → IsList stop head tail h' (if b then erase_key key mid else mid)
        erased h' false i c = record { cells = c; order = s.order }
        erased h' true i c = record {
          cells = subst (Cells stop h') (full-erase_key i) c;
          order =
              subst (Above int_min) (erase_key-tail key tail mid i)
                (erase_key-Above int_min key _ s.order);
        }

    -- `remove` between the two nodes that `locate` finds.
    pub unlink-IsList :
        (pred curr : ℕ) × (h' : Heap (Entry T)) × (locate fuel h head key ≡ ok (pred, curr))
        × (unlink key h pred curr ≡ ok (has_key key mid, h'))
        × IsList stop head tail h' (if has_key key mid then erase_key key mid else mid)
    unlink-IsList =
        let (pred, curr, done, split) = locate-Split in
        let (h', unlinked, set) = unlink-at pred curr split in (pred, curr, h', done, unlinked, set)
