-- ===== src/Lists/LockFreeList/Marked.antt =====
-- Nodes with marked pointers, seen as nodes that hold the mark beside their data.
use tl2_cpp.Common.{
  ℕ, ◌+◌, ◌-◌, ◌%◌, ◌≡◌, ◌≢◌, refl, sym, ap, ◌∙◌, Bool, true, false, not, Option, none, some, ◌==◌,
  arith, update, Bool-cases, inl, inr, ==_refl, eq_of_==,
}
use tl2_cpp.Common.Res.{ok}
use tl2_cpp.Heap.{Node, node, Heap, null, at}
use tl2_cpp.Heap.Cells.{at-live, set_next-live}
use tl2_cpp.Lists.Sorted.{Entry}
use tl2_cpp.Lists.LockFreeList.{pack, get_ptr, get_mark, get, set, compare_and_set}

get_ptr-pack : (p : ℕ) (m : Bool) → p % 2 ≡ 0 → get_ptr (pack p m) ≡ p
unfolding get_ptr pack
get_ptr-pack p true e = omega (arith, e)
get_ptr-pack p false e = omega (arith, e)

get_mark-pack : (p : ℕ) (m : Bool) → get_mark (pack p m) ≡ m
unfolding get_mark pack
get_mark-pack p true = let odd : (p - p % 2 + 1) % 2 ≡ 1 = omega arith in ap (λ n. not (n == 0)) odd
get_mark-pack p false =
    let even : (p - p % 2 + 0) % 2 ≡ 0 = omega arith in ap (λ n. not (n == 0)) even

-- A word is its address with its mark.
pack-word : (v : ℕ) → pack (get_ptr v) (get_mark v) ≡ v
unfolding pack get_ptr get_mark
pack-word v = elim (Bool-cases (v % 2 == 0)) [
  | inl e ↦ rw e (let z = eq_of_== (v % 2) 0 e in omega (arith, z))
  | inr n ↦ rw n (let o : v % 2 ≡ 1 = ground (arith, n) in omega (arith, o))
]

get_ptr-even : (v : ℕ) → get_ptr v % 2 ≡ 0
unfolding get_ptr
get_ptr-even v = omega arith

module _ {T : Type 0} where
  -- A node with its mark.
  abbrev pub unpacked : Option (Node (Entry T)) → Option (Node (Entry T × Bool))
  unpacked none = none
  unpacked (some n) = some (node (n.data_of, get_mark n.next) (get_ptr n.next))

  abbrev pub view : Heap (Entry T) → Heap (Entry T × Bool)
  view h p = unpacked (h p)

  data_or : Entry T × Bool → Option (Node (Entry T × Bool)) → Entry T × Bool
  data_or d none = d
  data_or d (some n) = n.data_of

  next_or : ℕ → Option (Node (Entry T × Bool)) → ℕ
  next_or q none = q
  next_or q (some n) = n.next

  -- What stands behind a node of the view.
  pub behind_view :
      (h : Heap (Entry T)) (p : ℕ) (e : Entry T) (m : Bool) (q : ℕ)
      → view h p ≡ some (node (e, m) q)
      → (raw : ℕ) × (h p ≡ some (node e raw)) × (get_ptr raw ≡ q) × (get_mark raw ≡ m)
  unfolding data_or next_or
  behind_view h p e m q v = go (h p) refl v
    where
      go :
          (o : Option (Node (Entry T)))
          → h p ≡ o
          → unpacked o ≡ some (node (e, m) q)
          → (raw : ℕ) × (h p ≡ some (node e raw)) × (get_ptr raw ≡ q) × (get_mark raw ≡ m)
      go none same v = cc
      go (some n) same v = (
        n.next,
        same ∙ ap (λ d. some (node d n.next)) (ap (λ d. (data_or (e, m) d).0) v),
        ap (next_or q) v,
        ap (λ d. (data_or (e, m) d).1) v,
      )

  pub view-even :
      (h : Heap (Entry T)) (p : ℕ) (d : Entry T × Bool) (q : ℕ)
      → view h p ≡ some (node d q)
      → q % 2 ≡ 0
  view-even h p (e, m) q v =
      let (raw, _, ptr, _) = behind_view h p e m q v in ap (λ n. n % 2) (sym ptr) ∙ get_ptr-even raw

  pub at-view :
      (h : Heap (Entry T)) (p : ℕ) (e : Entry T) (m : Bool) (q : ℕ)
      → p ≢ null
      → view h p ≡ some (node (e, m) q)
      → (raw : ℕ) × (at h p ≡ ok (node e raw))
  at-view h p e m q ne v =
      let (raw, there, _, _) = behind_view h p e m q v in (raw, at-live h p e raw ne there)

  pub get-view :
      (h : Heap (Entry T)) (p : ℕ) (e : Entry T) (m : Bool) (q : ℕ)
      → p ≢ null
      → view h p ≡ some (node (e, m) q)
      → get h p ≡ ok (q, m)
  unfolding get
  get-view h p e m q ne v =
      let (raw, there, ptr, mark) = behind_view h p e m q v in
      rw (at-live h p e raw ne there)
        (ap (λ a. ok (a, get_mark raw)) ptr ∙ ap (λ b. ok (q, b)) mark)

  -- The view after a node is written.
  pub view-update :
      (h : Heap (Entry T)) (p : ℕ) (e : Entry T) (m : Bool) (q a : ℕ)
      → q % 2 ≡ 0
      → view (update h p (some (node e (pack q m)))) a ≡ update (view h) p (some (node (e, m) q)) a
  view-update h p e m q a even = elim (Bool-cases (p == a)) [
    | inl s ↦ rw s (
        ap (λ n. some (node (e, get_mark (pack q m)) n)) (get_ptr-pack q m even)
        ∙ ap (λ b. some (node (e, b) q)) (get_mark-pack q m))
    | inr o ↦ rw o refl
  ]

  -- `compare_and_set` where the word is the expected one.
  pub compare_and_set-view :
      (h : Heap (Entry T)) (p : ℕ) (e : Entry T) (q r : ℕ) (m m' : Bool)
      → p ≢ null
      → view h p ≡ some (node (e, m) q)
      → compare_and_set h p q r m m' ≡ ok (true, update h p (some (node e (pack r m'))))
  unfolding compare_and_set set
  compare_and_set-view h p e q r m m' ne v =
      let (raw, there, ptr, mark) = behind_view h p e m q v in
      let word : pack q m ≡ raw =
        ap (λ n. pack n m) (sym ptr) ∙ ap (pack (get_ptr raw)) (sym mark) ∙ pack-word raw in
      rw (at-live h p e raw ne there) (
        rw (ap (λ n. raw == n) word ∙ ==_refl raw)
          (rw (set_next-live h p e raw (pack r m') ne there) refl))
