-- ===== src/LocationSet/Hash/Refine.antt =====
-- tl2/op.h: `LocationHashVectorSet` against the linear search of Entries.
use tl2_cpp.Common.{
  ℕ, ◌≡◌, sym, ap, subst, true, ◌∙◌, none, some, [], ◌∷◌, ◌++◌, inl, inr, length, get_elem?, set,
  arith, Option-cases,
}
use tl2_cpp.Common.Res.{ok, ◌>>=◌, >>=-eq-ok, ok-injective}
use tl2_cpp.LockTable.{LockTable}
use tl2_cpp.Store.{Store}
use tl2_cpp.Location.{Location}
use tl2_cpp.LocationSet.Vendored.{AddrMap}
use tl2_cpp.LocationSet.Entries.{index_of, read_entry, write_entry, staged_at}
use tl2_cpp.LocationSet.Entries.Index.{
  get_elem?-index_of, read_entry-index_of, write_entry-index_of, staged_at-index_of,
  index_of-append, index_of-set, addr-read, addr-write, addr-new_read, addr-new_write,
}
use tl2_cpp.LocationSet.Hash.{HashVectorSet, register_write, register_read, find_write}

module _ (m : AddrMap) where
  -- The map holds the position of each entry of the vector, and nothing else.
  abbrev pub IsIndexed : HashVectorSet m → Type 0
  IsIndexed s = (a : ℕ) → m.find a s.map ≡ index_of a s.vec

  -- While the map holds the position of each entry of the vector, `register_read` does to the vector
  -- what a linear search for the address does: it notes the read in the entry it finds, or appends a
  -- new one.
  pub vec-register_read :
      (me : ℕ) (locks : LockTable) (a : ℕ) (s : HashVectorSet m)
      → IsIndexed s
      → (do s' ← register_read m me locks a s; ok s'.vec) ≡ read_entry me locks a s.vec
  unfolding register_read
  vec-register_read me locks a s ix =
      rw (read_entry-index_of me locks a s.vec, ← ix a) (ground arith)

  -- While the map holds the position of each entry of the vector, `register_write` does to the
  -- vector and the buffer what a linear search for the address does: it writes in the entry it
  -- finds, or appends a new one.
  pub vec-register_write :
      {V : Type 0} (a : ℕ) (v : V) (st : Store V) (s : HashVectorSet m)
      → IsIndexed s
      → (do (s', st') ← register_write m a v st s; ok (s'.vec, st')) ≡ write_entry a v st s.vec
  unfolding register_write
  vec-register_write a v st s ix = rw (write_entry-index_of a v st s.vec, ← ix a) (ground arith)

  -- While the map holds the position of each entry of the vector, `find_write` finds the staged
  -- object that a linear search for the address finds, and never runs out of the vector.
  pub find_write-staged_at :
      (a : ℕ) (s : HashVectorSet m) → IsIndexed s → find_write m a s ≡ ok (staged_at a s.vec)
  unfolding find_write
  find_write-staged_at a s ix = rw (staged_at-index_of a s.vec, ← ix a) (ground arith)

  -- While the map holds the position of each entry of the vector, the operations do to the vector and
  -- the buffer what a linear search for the address does: `register_read` and `register_write` note
  -- the access in the entry that is found, or append a new one, and `find_write` answers the staged
  -- object that is found, and never runs out of the vector.
  pub vec-ops :
      {V : Type 0} (me : ℕ) (locks : LockTable) (a : ℕ) (v : V) (st : Store V) (s : HashVectorSet m)
      → IsIndexed s
      → ((do s' ← register_read m me locks a s; ok s'.vec) ≡ read_entry me locks a s.vec)
        × ((do (s', st') ← register_write m a v st s; ok (s'.vec, st')) ≡ write_entry a v st s.vec)
        × (find_write m a s ≡ ok (staged_at a s.vec))
  vec-ops me locks a v st s ix = (
    vec-register_read me locks a s ix,
    vec-register_write a v st s ix,
    find_write-staged_at a s ix,
  )

  append-IsIndexed :
      (s : HashVectorSet m) (a : ℕ) (l : Location)
      → m.find a s.map ≡ none
      → l.addr ≡ a
      → IsIndexed s
      → IsIndexed (record { vec = s.vec ++ l ∷ []; map = m.emplace a (length s.vec) s.map })
  append-IsIndexed s a l absent same ix b =
      ground (arith, ix b, ix a, m.find-emplace a b (length s.vec) s.map, index_of-append b s.vec l)

  set-IsIndexed :
      (s : HashVectorSet m) (i : ℕ) (l l' : Location)
      → get_elem? s.vec i ≡ some l
      → l'.addr ≡ l.addr
      → IsIndexed s
      → IsIndexed (record s { vec = set s.vec i l' })
  set-IsIndexed s i l l' at same ix b = ix b ∙ sym (index_of-set b s.vec i l l' at same)

  -- The entry at a position that the map gives.
  entry_at :
      (a : ℕ) (s : HashVectorSet m) (i : ℕ)
      → IsIndexed s
      → m.find a s.map ≡ some i
      → (l : Location) × (get_elem? s.vec i ≡ some l) × (l.addr ≡ a)
  entry_at a s i ix at = get_elem?-index_of a s.vec (sym (ix a) ∙ at)

  -- `register_read` keeps the map in step with the vector.
  pub register_read-IsIndexed :
      (me : ℕ) (locks : LockTable) (a : ℕ) (s : HashVectorSet m) {s' : HashVectorSet m}
      → IsIndexed s
      → register_read m me locks a s ≡ ok s'
      → IsIndexed s'
  unfolding register_read
  register_read-IsIndexed me locks a s ix h = elim (Option-cases (m.find a s.map)) [
    | inl absent ↦
        let (l, e, f) = >>=-eq-ok _ _ (rw (absent, register_read) at h) in
        subst IsIndexed (ok-injective f)
          (append-IsIndexed s a l absent (addr-new_read me locks a true e) ix)
    | inr (i, at) ↦
        let (l, here, same) = entry_at a s i ix at in
        let (l', e, f) = >>=-eq-ok _ _ (rw (at, here, register_read) at h) in
        subst IsIndexed (ok-injective f) (set-IsIndexed s i l l' here (addr-read me locks l e) ix)
  ]

  -- `register_write` keeps the map in step with the vector.
  pub register_write-IsIndexed :
      {V : Type 0} (a : ℕ) (v : V) (st : Store V) (s : HashVectorSet m) {s' : HashVectorSet m}
      {st' : Store V}
      → IsIndexed s
      → register_write m a v st s ≡ ok (s', st')
      → IsIndexed s'
  unfolding register_write
  register_write-IsIndexed a v st s ix h = elim (Option-cases (m.find a s.map)) [
    | inl absent ↦
        let ((l, st₁), e, f) = >>=-eq-ok _ _ (rw (absent, register_write) at h) in
        subst IsIndexed (ap (λ x. x.0) (ok-injective f))
          (append-IsIndexed s a l absent (addr-new_write a v st e) ix)
    | inr (i, at) ↦
        let (l, here, same) = entry_at a s i ix at in
        let ((l', st₁), e, f) = >>=-eq-ok _ _ (rw (at, here, register_write) at h) in
        subst IsIndexed (ap (λ x. x.0) (ok-injective f))
          (set-IsIndexed s i l l' here (addr-write v st l e) ix)
  ]
