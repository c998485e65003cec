-- ===== src/Policy/Pool.antt =====
-- tl2/memory.h, `SynchronizedPoolPolicy`, whose pool gives each staged object a block of its own.
-- The objects are those of a `Store`; `blocks` says with how many bytes and which alignment the block
-- at an address is allocated.
use tl2_cpp.Common.{
  ℕ, ◌≡◌, ◌≢◌, ◌+◌, ◌≤◌, refl, inl, inr, ◌&&◌, ◌⊎◌, Bool-cases, Option-cases, ◌∙◌, Bool, true,
  false, Option, none, some, List, [], ◌∷◌, ◌==◌, arith, if◌then◌else◌, update, ==_refl,
}
use tl2_cpp.Common.Res.{Res, ok, fault, ◌>>=◌}
use tl2_cpp.Store.{Store, alive, construct}
use tl2_cpp.Store.Cells.{alive-le_one}
use tl2_cpp.Location
use tl2_cpp.Location.{Location, WriteVal, blank, staged, val_addr}
use tl2_cpp.LocationSet.Entries.Owned.{owns, owners, is_staged, IsBacked}
use tl2_cpp.Policy.Free.{free_one}

pub record Pool (V : Type 0) : Type 0 where
  pub store : Store V
  pub blocks : ℕ → Option (ℕ × ℕ)

-- `res.deallocate(p, n, alignment)`: undefined for a block that is not allocated with this size and
-- this alignment.
unfoldable pub deallocate : ℕ → ℕ → ℕ → (ℕ → Option (ℕ × ℕ)) → Res (ℕ → Option (ℕ × ℕ))
deallocate p n alignment blocks = check (blocks p)
  where
    check : Option (ℕ × ℕ) → Res (ℕ → Option (ℕ × ℕ))
    check none = fault
    check (some (m, a)) = if (m == n) && (a == alignment) then ok (update blocks p none) else fault

-- `max_align` is `alignof(std::max_align_t)`, which `deallocate` takes where the call names no
-- alignment; `bytes_size` is the size that a `WriteVal` has noted of its value.
module _ {V : Type 0} (max_align : ℕ) (bytes_size : WriteVal → ℕ) where
  -- `res.allocate`, and the object that the caller constructs there.
  unfoldable pub allocate : ℕ → ℕ → V → Pool V → ℕ × Pool V
  allocate bytes alignment v pool =
      let (p, st) = construct v pool.store in
      (p, record { store = st; blocks = update pool.blocks p (some (bytes, alignment)) })

  -- A written location in the loop of `clear`.
  unfoldable pub free_block : WriteVal → Pool V → Res (Pool V)
  free_block w pool = do
    st ← Location.free_heap w pool.store
    blocks ← deallocate (val_addr w) (bytes_size w) max_align pool.blocks
    ok (record { store = st; blocks = blocks })

  unfoldable pub clear : List Location → Pool V → Res (Pool V)
  clear [] pool = ok pool
  clear (l ∷ ls) pool = do
    pool' ← if l.was_written then free_block l.write_val pool else ok pool
    clear ls pool'

  -- The blocks of the owned objects are allocated with the noted sizes and the default alignment.
  abbrev pub IsAligned : List Location → Pool V → Type 0
  IsAligned ls pool =
      (p : ℕ) → 1 ≤ owners p ls → pool.blocks p ≡ some (bytes_size (staged p), max_align)

  free_block_lem :
      (w : WriteVal) (b : Bool) (pool : Pool V)
      → is_staged w ≡ b
      → ((p : ℕ) → owns p w ≤ alive p pool.store)
      → ((p : ℕ) → 1 ≤ owns p w → pool.blocks p ≡ some (bytes_size (staged p), max_align))
      → (pool' : Pool V) × ((if b then free_block w pool else ok pool) ≡ ok pool')
        × ((p : ℕ) → alive p pool'.store + owns p w ≡ alive p pool.store)
        × ((p : ℕ) → pool'.blocks p ≡ (if owns p w == 0 then pool.blocks p else none))
  unfolding free_block deallocate val_addr
  free_block_lem blank true pool e back here = cc
  free_block_lem (staged q) false pool e back here = cc
  free_block_lem blank false pool e back here = (pool, refl, λ p. omega arith, λ p. refl)
  free_block_lem (staged q) true pool e back here =
      let (st, done, left) = free_one (staged q) true pool.store refl back in
      let there : pool.blocks q ≡ some (bytes_size (staged q), max_align) = here q (ground arith) in
      (
        record { store = st; blocks = update pool.blocks q none },
        rw (done, there, ==_refl (bytes_size (staged q)), ==_refl max_align) refl,
        left,
        λ p. ground arith,
      )

  -- Let each entry's object be alive and owned once, and its block be allocated with the size that
  -- its entry has noted and with the default alignment, `alignof(std::max_align_t)`. Then `clear`
  -- destroys each object that an entry owns and gives back its block, and touches no other.
  pub clear-blocks :
      (ls : List Location) (pool : Pool V)
      → IsBacked ls pool.store
      → IsAligned ls pool
      → (pool' : Pool V) × (clear ls pool ≡ ok pool')
        × ((p : ℕ) → alive p pool'.store + owners p ls ≡ alive p pool.store)
        × ((p : ℕ) → pool'.blocks p ≡ (if owners p ls == 0 then pool.blocks p else none))
  unfolding clear owners
  clear-blocks [] pool back here = (pool, refl, λ p. omega arith, λ p. refl)
  clear-blocks (l ∷ ls) pool back here =
      let (pool₁, e₁, left₁, gone₁) =
        free_block_lem l.write_val l.was_written pool back.entries.0
          (λ p. omega (arith, back.backed p)) (λ p i. here p (omega (arith, i))) in
      let rest : IsBacked ls pool₁.store = record {
        entries = back.entries.1;
        backed = λ p. omega (arith, back.backed p, left₁ p);
      } in
      let still : IsAligned ls pool₁ = λ p i.
        let other : owns p l.write_val ≡ 0 =
          omega (arith, back.backed p, alive-le_one p pool.store, i) in
        gone₁ p ∙ rw other (here p (omega (arith, i))) in
      let (pool', e, left, gone) = clear-blocks ls pool₁ rest still in
      (pool', rw e₁ e, λ p. omega (arith, left p, left₁ p), λ p. ground (arith, gone p, gone₁ p))

  -- A block of another alignment is given back, and that is a fault, or it stays as it is.
  free_block-misaligned :
      (w : WriteVal) (b : Bool) (pool : Pool V) (p n a : ℕ)
      → is_staged w ≡ b
      → ((p : ℕ) → owns p w ≤ alive p pool.store)
      → pool.blocks p ≡ some (n, a)
      → a ≢ max_align
      → ((if b then free_block w pool else ok pool) ≡ fault)
        ⊎ ((pool' : Pool V) × ((if b then free_block w pool else ok pool) ≡ ok pool')
            × (owns p w ≡ 0)
            × ((p : ℕ) → alive p pool'.store + owns p w ≡ alive p pool.store)
            × (pool'.blocks p ≡ some (n, a)))
  unfolding free_block deallocate val_addr
  free_block-misaligned blank true pool p n a e back here odd = cc
  free_block-misaligned (staged q) false pool p n a e back here odd = cc
  free_block-misaligned blank false pool p n a e back here odd =
      inr (pool, refl, refl, (λ p. omega arith), here)
  free_block-misaligned (staged q) true pool p n a e back here odd =
      let (st, done, left) = free_one (staged q) true pool.store refl back in
      elim (Option-cases (pool.blocks q)) [
        | inl none_there ↦ inl (rw (done, none_there) refl)
        | inr ((m, c), there) ↦
            elim (Bool-cases ((m == bytes_size (staged q)) && (c == max_align))) [
              | inr differ ↦ inl (rw (done, there, differ) refl)
              | inl fit ↦
                  let apart : (q == p) ≡ false = ground (arith, there, here, odd, fit) in
                  inr (
                    record { store = st; blocks = update pool.blocks q none },
                    rw (done, there, fit) refl,
                    rw apart refl,
                    left,
                    ground (arith, apart, here),
                  )
            ]
      ]

  -- Let each entry's object be alive and owned once. If the block of an owned object is allocated
  -- with another alignment than the default one (tl2/op.h allocates with `alignof(T)`), then
  -- `clear` breaks what the pool requires of `deallocate`.
  pub clear-misaligned :
      (ls : List Location) (pool : Pool V) (p n a : ℕ)
      → IsBacked ls pool.store
      → 1 ≤ owners p ls
      → pool.blocks p ≡ some (n, a)
      → a ≢ max_align
      → clear ls pool ≡ fault
  unfolding clear owners
  clear-misaligned [] pool p n a back owned here odd = absurd (omega (arith, owned))
  clear-misaligned (l ∷ ls) pool p n a back owned here odd =
      elim (free_block-misaligned l.write_val l.was_written pool p n a back.entries.0
        (λ p. omega (arith, back.backed p)) here odd) [
          | inl e ↦ rw e refl
          | inr (pool₁, e₁, other, left₁, here₁) ↦
              let rest : IsBacked ls pool₁.store = record {
                entries = back.entries.1;
                backed = λ p. omega (arith, back.backed p, left₁ p);
              } in
              rw e₁ (clear-misaligned ls pool₁ p n a rest (omega (arith, owned, other)) here₁ odd)
        ]
