-- ===== src/Workload/Keys.antt =====
-- A workload on any list that keeps a set of keys: what each operation promises, and which keys the
-- benchmark leaves.
use tl2_cpp.Common.{
  ℕ, zero, suc, ◌+◌, ◌^◌, ◌<◌, ◌≤◌, ◌≡◌, refl, subst, fun_ext, Bool, true, false, not, ◌||◌, Option,
  none, some, List, [], ◌∷◌, ◌==◌, ltb, if◌then◌else◌, update, All, arith, Bool-cases, inl, inr,
}
use tl2_cpp.Common.Res.{Res, ok, ◌>>=◌}
use tl2_cpp.Lists.Sorted.Ends.{IsInner}
use tl2_cpp.Workload.{Workload, ListOps, Draw, prefill, round, rounds}

-- The keys after an operation returned: `Kept s' ks` holds of the state.
abbrev pub Leaves :
    {S : Type 0} → (S → (ℕ → Bool) → Type 0) → Res (Bool × S) → Bool → (ℕ → Bool) → Type 0
Leaves {S} Holds r b ks = (s' : S) × (r ≡ ok (b, s')) × Holds s' ks

-- What the operations promise of a list that holds a set of keys; `hash` is the key of an item.
pub record IsSetList {S : Type 0} (hash : ℕ → ℕ) (ops : ListOps S) : Type 1 where
  pub Holds : S → (ℕ → Bool) → Type 0
  pub contains_lem :
      (s : S) (ks : ℕ → Bool) (x : ℕ)
      → Holds s ks
      → IsInner (hash x)
      → Leaves Holds (ops.contains x s) (ks (hash x)) ks
  pub add_lem :
      (s : S) (ks : ℕ → Bool) (x : ℕ)
      → Holds s ks
      → IsInner (hash x)
      → Leaves Holds (ops.add x s) (not (ks (hash x))) (update ks (hash x) true)
  pub remove_lem :
      (s : S) (ks : ℕ → Bool) (x : ℕ)
      → Holds s ks
      → IsInner (hash x)
      → Leaves Holds (ops.remove x s) (ks (hash x)) (update ks (hash x) false)

-- What a round leaves of the key `k`: it is put in, taken out, or as before.
abbrev pub change : (ℕ → ℕ) → Workload → Draw → ℕ → Option Bool
change hash w d k =
    if not (hash d.key == k) || ltb d.op w.contains_pct
    then none
    else some (ltb d.op (w.contains_pct + w.add_pct))

abbrev or_else : Option Bool → Bool → Bool
or_else none b = b
or_else (some c) b = c

-- The last round that adds or removes `k` says whether it is there at the end; `b` if there is none.
abbrev pub at_end : (ℕ → ℕ) → Workload → ℕ → List Draw → Bool → Bool
at_end hash w k [] b = b
at_end hash w k (d ∷ ds) b = at_end hash w k ds (or_else (change hash w d k) b)

-- The keys of the `count` items from `i` on.
abbrev pub filled : (ℕ → ℕ) → ℕ → ℕ → ℕ → Bool
filled hash zero i k = false
filled hash (suc count) i k = (hash (i + 2 ^ 31) == k) || filled hash count (suc i) k

module _ {S : Type 0} (hash : ℕ → ℕ) (ops : ListOps S) (law : IsSetList hash ops)
    (w : Workload) where
  abbrev same_keys :
      (s : S) {ks js : ℕ → Bool} → ((k : ℕ) → ks k ≡ js k) → law.Holds s ks → law.Holds s js
  same_keys s e h = subst (law.Holds s) (fun_ext e) h

  pub round-Holds :
      (d : Draw) (s : S) (ks : ℕ → Bool)
      → law.Holds s ks
      → IsInner (hash d.key)
      → (b : Bool) × Leaves law.Holds (round ops w d s) b (λ k. or_else (change hash w d k) (ks k))
  unfolding round
  round-Holds d s ks h inner = elim (Bool-cases (ltb d.op w.contains_pct)) [
    | inl reads ↦
        let (s', e, h') = law.contains_lem s ks d.key h inner in
        (ks (hash d.key), (s', rw reads e, same_keys s' (λ k. ground (arith, reads)) h'))
    | inr writes ↦ elim (Bool-cases (ltb d.op (w.contains_pct + w.add_pct))) [
      | inl adds ↦
          let (s', e, h') = law.add_lem s ks d.key h inner in
          (
            not (ks (hash d.key)),
            (s', rw (writes, adds) e, same_keys s' (λ k. ground (arith, writes, adds)) h'),
          )
      | inr takes ↦
          let (s', e, h') = law.remove_lem s ks d.key h inner in
          (
            ks (hash d.key),
            (s', rw (writes, takes) e, same_keys s' (λ k. ground (arith, writes, takes)) h'),
          )
    ]
  ]

  rounds-Holds :
      (ds : List Draw) (s : S) (ks : ℕ → Bool)
      → law.Holds s ks
      → All (λ d. IsInner (hash d.key)) ds
      → (s' : S) × (rounds ops w ds s ≡ ok s') × law.Holds s' (λ k. at_end hash w k ds (ks k))
  unfolding rounds
  rounds-Holds [] s ks h inner = (s, refl, h)
  rounds-Holds (d ∷ ds) s ks h inner =
      let (b, (s₁, e₁, h₁)) = round-Holds d s ks h inner.0 in
      let (s', e, h') = rounds-Holds ds s₁ (λ k. or_else (change hash w d k) (ks k)) h₁ inner.1 in
      (s', rw e₁ e, h')

  -- `ks` and the keys of the `count` items from `i` on.
  abbrev both : (ℕ → Bool) → ℕ → ℕ → ℕ → Bool
  both ks count i k = ks k || filled hash count i k

  prefill-Holds :
      (count i : ℕ) (s : S) (ks : ℕ → Bool)
      → law.Holds s ks
      → ((j : ℕ) → i ≤ j → j < i + count → IsInner (hash (j + 2 ^ 31)))
      → (s' : S) × (prefill ops count i s ≡ ok s') × law.Holds s' (both ks count i)
  unfolding prefill
  prefill-Holds zero i s ks h inner = (s, refl, same_keys s (λ k. or_false (ks k)) h)
    where
      or_false : (b : Bool) → b ≡ (b || false)
      or_false true = refl
      or_false false = refl
  prefill-Holds (suc count) i s ks h inner =
      let (s₁, e₁, h₁) = law.add_lem s ks (i + 2 ^ 31) h (inner i (omega arith) (omega arith)) in
      let (s', e, h') =
        prefill-Holds count (suc i) s₁ (update ks (hash (i + 2 ^ 31)) true) h₁
          (λ j l u. inner j (omega (arith, l)) (omega (arith, u))) in
      (s', rw e₁ e, same_keys s' (λ k. ground arith) h')

  -- On a list that holds no key, and for items whose keys are between those of the end nodes: the
  -- filling, and the rounds of a thread that runs alone, end. Afterwards a key is in the list exactly
  -- if the last round that added or removed it added it, or if there is no such round and an item
  -- with it was filled in.
  pub rounds-prefill :
      (count : ℕ) (ds : List Draw) (s : S)
      → law.Holds s (λ k. false)
      → ((i : ℕ) → i < count → IsInner (hash (i + 2 ^ 31)))
      → All (λ d. IsInner (hash d.key)) ds
      → (s' : S) × ((do s₁ ← prefill ops count 0 s; rounds ops w ds s₁) ≡ ok s')
        × law.Holds s' (λ k. at_end hash w k ds (filled hash count 0 k))
  rounds-prefill count ds s h within inner =
      let (s₁, e₁, h₁) =
        prefill-Holds count 0 s (λ k. false) h (λ j l u. within j (omega (arith, u))) in
      let (s', e, h') = rounds-Holds ds s₁ (filled hash count 0) h₁ inner in (s', rw e₁ e, h')
