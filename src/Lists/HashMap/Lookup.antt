-- ===== src/Lists/HashMap/Lookup.antt =====
-- `HashMap` as a map from keys to items.
use tl2_cpp.Common.{
  ℕ, suc, ◌<◌, ◌≤◌, ◌≡◌, ◌≢◌, refl, sym, ap, ◌∙◌, Bool, true, false, Option, none, some, List, [],
  ◌∷◌, ◌==◌, if◌then◌else◌, length, arith, update, Bool-cases, inl, inr, eq_of_==, ==_refl,
}
use mathlib.Core.Option
use tl2_cpp.Common.Res.{ok}
use tl2_cpp.Heap.{Heap, null}
use tl2_cpp.Heap.Cells.{has-fresh}
use tl2_cpp.Lists.LinkedList.Cells.{items}
use tl2_cpp.Lists.LinkedList.Search.{any, first, get-first}
use tl2_cpp.Lists.LinkedList.Update.{swap, replace-Replaced}
use tl2_cpp.Lists.HashMap.Buckets.{IsMap, IsMap-update}
use tl2_cpp.Lists.HashMap.{
  Entry, HashMap, new, probe, matches, bucket, contains, get, set, has_value,
}

module _ {K V : Type 0} (eq : K → K → Bool) (hash : K → ℕ) (blank : V) where
  -- The item of a key: that of the first entry with the key in its bucket.
  abbrev pub lookup : (ℕ → List (ℕ × Entry K V)) → K → Option V
  lookup cs key =
      Option.map (λ (e : Entry K V). e.item)
        (first (matches eq hash blank) (probe eq hash blank key)
          (items (cs (bucket eq hash blank key))))

  -- A new map has no node and no item.
  pub new-IsMap :
      (h : Heap (Entry K V)) → IsMap new h (λ i. []) × ((key : K) → lookup (λ i. []) key ≡ none)
  new-IsMap h = (
    record {
      lists = λ i. record { cells = tt; head = refl; size = refl };
      separate = λ i j a ne here. refl;
    },
    λ key. refl,
  )

  -- `get` looks up the key.
  pub get-lookup :
      (k : ℕ) (key : K) (m : HashMap) (h : Heap (Entry K V)) (cs : ℕ → List (ℕ × Entry K V))
      → IsMap m h cs
      → ((i : ℕ) → length (cs i) < k)
      → get eq hash blank k key m h ≡ ok (lookup cs key)
  unfolding get
  get-lookup k key m h cs s enough =
      rw
        (get-first (matches eq hash blank) k (probe eq hash blank key)
          (m (bucket eq hash blank key)) h (cs (bucket eq hash blank key))
          (s.lists (bucket eq hash blank key)) (enough (bucket eq hash blank key)))
        refl

  -- `contains` answers whether the key has an item.
  pub contains-lookup :
      (k : ℕ) (key : K) (m : HashMap) (h : Heap (Entry K V)) (cs : ℕ → List (ℕ × Entry K V))
      → IsMap m h cs
      → ((i : ℕ) → length (cs i) < k)
      → contains eq hash blank k key m h ≡ ok (has_value (lookup cs key))
  unfolding contains
  contains-lookup k key m h cs s enough =
      let b = bucket eq hash blank key in
      rw
        (get-first (matches eq hash blank) k (probe eq hash blank key) (m b) h (cs b) (s.lists b)
          (enough b))
        (has_value-map (first (matches eq hash blank) (probe eq hash blank key) (items (cs b))))
    where
      has_value-map :
          (o : Option (Entry K V))
          → ok (has_value o) ≡ ok (has_value (Option.map (λ (e : Entry K V). e.item) o))
      has_value-map none = refl
      has_value-map (some e) = refl

module _ {K V : Type 0} (eq : K → K → Bool) (hash : K → ℕ) (blank : V)
    (lawful : (a b : K) → eq a b ≡ true → a ≡ b) (same_key : (a : K) → eq a a ≡ true) where
  -- Exchanging the entry of a key changes what that key has, and nothing else.
  first-swap :
      (key q : K) (x : V) (ys : List (Entry K V))
      → any (matches eq hash blank) (probe eq hash blank key) ys ≡ true
      → first (matches eq hash blank) (probe eq hash blank q) (
          swap
            (matches eq hash blank)
            (probe eq hash blank key)
            (record { m_key = key; item = x })
            ys)
        ≡ (if eq key q
            then some (record { m_key = key; item = x })
            else first (matches eq hash blank) (probe eq hash blank q) ys)
  unfolding swap
  first-swap key q x [] there = cc
  first-swap key q x (y ∷ ys) there = elim (Bool-cases (eq y.m_key key)) [
    | inl hit ↦
        let tail = first (matches eq hash blank) (probe eq hash blank q) ys in
        rw hit (
          rw (ap (λ a. eq a q) (lawful y.m_key key hit))
            (twice (eq key q) (some (record { m_key = key; item = x })) (some y) tail))
    | inr miss ↦
        let changed = some (record { m_key = key; item = x }) in
        let tail = first (matches eq hash blank) (probe eq hash blank q) ys in
        rw miss (
          rw (first-swap key q x ys (ground (arith, there, miss))) (
            either (eq y.m_key q) (eq key q) changed (some y) tail
              (λ t u. (true_not_false (lawful y.m_key q t) (lawful key q u) miss))))
  ]
    where
      twice :
          {A : Type 0} (b : Bool) (u v w : A)
          → (if b then u else w) ≡ (if b then u else if b then v else w)
      twice true u v w = refl
      twice false u v w = refl

      either :
          {A : Type 0} (b c : Bool) (u v w : A)
          → (b ≡ true → c ≡ true → ⊥)
          → (if b then v else if c then u else w) ≡ (if c then u else if b then v else w)
      either true true u v w never = absurd (never refl refl)
      either true false u v w never = refl
      either false c u v w never = refl

      true_not_false : {a b c : K} → a ≡ b → c ≡ b → eq a c ≡ false → ⊥
      true_not_false {a} {b} {c} e f g =
          ground (arith, sym (same_key c) ∙ ap (λ d. eq d c) (sym (e ∙ sym f)) ∙ g)

  -- The entries of the bucket after `set`.
  first-Replaced :
      (key q : K) (x : V) (ys zs : List (Entry K V))
      → zs ≡ (
          if any (matches eq hash blank) (probe eq hash blank key) ys
          then swap
              (matches eq hash blank)
              (probe eq hash blank key)
              (record { m_key = key; item = x })
              ys
          else record { m_key = key; item = x } ∷ ys)
      → first (matches eq hash blank) (probe eq hash blank q) zs ≡ (
          if eq key q
          then some (record { m_key = key; item = x })
          else first (matches eq hash blank) (probe eq hash blank q) ys)
  first-Replaced key q x ys zs e =
      elim (Bool-cases (any (matches eq hash blank) (probe eq hash blank key) ys)) [
        | inl there ↦ rw e (rw there (first-swap key q x ys there))
        | inr out ↦ rw e (rw out refl)
      ]

  -- `set` gives the key the item and leaves the items of all other keys; the new node, if one is
  -- made, is at an address that was free.
  pub set-lookup :
      (k p : ℕ) (key : K) (x : V) (m : HashMap) (h : Heap (Entry K V))
      (cs : ℕ → List (ℕ × Entry K V))
      → IsMap m h cs
      → ((i : ℕ) → length (cs i) < k)
      → p ≢ null
      → h p ≡ none
      → (m' : HashMap) × (h' : Heap (Entry K V)) × (cs' : ℕ → List (ℕ × Entry K V)) × (set eq hash
            blank k p key x m h
          ≡ ok (m', h'))
        × IsMap m' h' cs'
        × ((i : ℕ) → length (cs' i) ≤ suc (length (cs i)))
        × ((a : ℕ) → h a ≡ none → (a == p) ≡ false → h' a ≡ none)
        × ((q : K)
            → lookup eq hash blank cs' q ≡ (if eq key q then some x else lookup eq hash blank cs q))
  unfolding set
  set-lookup k p key x m h cs s enough ne free =
      let b = bucket eq hash blank key in
      let entry : Entry K V = record { m_key = key; item = x } in
      let out = λ (i : ℕ). has-fresh null p h (cs i) (s.lists i).cells free in
      let (l', h', done, r) =
        replace-Replaced (matches eq hash blank) k p (probe eq hash blank key) entry (m b) h (cs b)
          (s.lists b) (enough b) ne (out b) in
      (
        update m b l',
        h',
        update cs b r.cells,
        rw done refl,
        IsMap-update m h cs s b p l' h' r.cells r.holds r.among r.same out,
        λ i. length-update b i cs r.cells r.room,
        λ a f other. r.same a (has-fresh null a h (cs b) (s.lists b).cells f) other ∙ f,
        λ q. look q cs r.cells (first-Replaced key q x (items (cs b)) (items r.cells) r.left),
      )
    where
      length-update :
          {A : Type 0} (b i : ℕ) (cs : ℕ → List A) (zs : List A)
          → length zs ≤ suc (length (cs b))
          → length (update cs b zs i) ≤ suc (length (cs i))
      length-update b i cs zs room = elim (Bool-cases (b == i)) [
        | inl e ↦ rw e (omega (arith, ap (λ j. length (cs j)) (eq_of_== b i e), room))
        | inr e ↦ rw e (omega arith)
      ]

      look :
          (q : K) (cs : ℕ → List (ℕ × Entry K V)) (zs : List (ℕ × Entry K V))
          → first (matches eq hash blank) (probe eq hash blank q) (items zs) ≡ (
              if eq key q
              then some (record { m_key = key; item = x })
              else first
                  (matches eq hash blank)
                  (probe eq hash blank q)
                  (items (cs (bucket eq hash blank key))))
          → lookup eq hash blank (update cs (bucket eq hash blank key) zs) q
            ≡ (if eq key q then some x else lookup eq hash blank cs q)
      look q cs zs e = elim (Bool-cases (bucket eq hash blank key == bucket eq hash blank q)) [
        | inl f ↦ rw f (elim (Bool-cases (eq key q)) [
          | inl g ↦ rw e (rw g refl)
          | inr g ↦
              let there = eq_of_== (bucket eq hash blank key) (bucket eq hash blank q) f in
              rw e (
                rw g (
                  ap
                    (λ b.
                      Option.map (λ (e : Entry K V). e.item)
                        (first (matches eq hash blank) (probe eq hash blank q) (items (cs b))))
                    there))
        ])
        | inr f ↦ rw f (elim (Bool-cases (eq key q)) [
          | inl g ↦
              let b = bucket eq hash blank in
              absurd
                (ground (arith, f, ap (λ r. b key == b r) (sym (lawful key q g)) ∙ ==_refl (b key)))
          | inr g ↦ rw g refl
        ])
      ]
