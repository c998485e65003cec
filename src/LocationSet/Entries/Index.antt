-- ===== src/LocationSet/Entries/Index.antt =====
-- The reference location set, by the position of an entry: the lemmas behind the indexed set.
use tl2_cpp.Common.{
  ℕ, zero, suc, ◌≡◌, refl, Bool, true, none, some, List, [], ◌∷◌, ◌++◌, ◌==◌, inl, inr,
  if◌then◌else◌, length, get_elem?, set, arith, Bool-cases,
}
use tl2_cpp.Common.Res.{ok, live, ◌>>=◌}
use tl2_cpp.LockTable.{LockTable}
use tl2_cpp.Store.{Store}
use tl2_cpp.Location
use tl2_cpp.Location.{Location}
use tl2_cpp.LocationSet.Entries.{index_of, read_entry, write_entry, staged_at}

-- The entry at the position that the search gives.
pub get_elem?-index_of :
    (a : ℕ) (ls : List Location) {i : ℕ}
    → index_of a ls ≡ some i
    → (l : Location) × (get_elem? ls i ≡ some l) × (l.addr ≡ a)
unfolding index_of
get_elem?-index_of a [] h = cc
get_elem?-index_of a (l ∷ ls) {i = zero} h = (l, refl, ground arith)
get_elem?-index_of a (l ∷ ls) {i = suc i} h = get_elem?-index_of a ls {i = i} (ground arith)

-- `read_entry` is the change at the position of the entry, or one more entry at the end.
pub read_entry-index_of :
    (me : ℕ) (locks : LockTable) (a : ℕ) (ls : List Location)
    → read_entry me locks a ls ≡ elim (index_of a ls) [
      | none ↦ (do l ← Location.new_read me locks a true; ok (ls ++ l ∷ []))
      | some i ↦ (do l ← live (get_elem? ls i); l' ← Location.read me locks l; ok (set ls i l'))
    ]
unfolding read_entry index_of
read_entry-index_of me locks a [] = refl
read_entry-index_of me locks a (l ∷ ls) = elim (Bool-cases (l.addr == a)) [
  | inl hit ↦ rw hit refl
  | inr miss ↦ rw (miss, read_entry-index_of me locks a ls) (ground arith)
]

pub write_entry-index_of :
    {V : Type 0} (a : ℕ) (v : V) (st : Store V) (ls : List Location)
    → write_entry a v st ls ≡ elim (index_of a ls) [
      | none ↦ (do (l, st') ← Location.new_write a v st; ok (ls ++ l ∷ [], st'))
      | some i ↦ (do
        l ← live (get_elem? ls i)
        (l', st') ← Location.write v st l
        ok (set ls i l', st'))
    ]
unfolding write_entry index_of
write_entry-index_of a v st [] = refl
write_entry-index_of a v st (l ∷ ls) = elim (Bool-cases (l.addr == a)) [
  | inl hit ↦ rw hit refl
  | inr miss ↦ rw (miss, write_entry-index_of a v st ls) (ground arith)
]

pub staged_at-index_of :
    (a : ℕ) (ls : List Location)
    → ok (staged_at a ls) ≡ elim (index_of a ls) [
      | none ↦ ok none
      | some i ↦ (do
        l ← live (get_elem? ls i)
        ok (if l.was_written then some (Location.val_addr l.write_val) else none))
    ]
unfolding staged_at index_of
staged_at-index_of a [] = refl
staged_at-index_of a (l ∷ ls) = elim (Bool-cases (l.addr == a)) [
  | inl hit ↦ rw hit refl
  | inr miss ↦ rw (miss, staged_at-index_of a ls) (ground arith)
]

-- How the positions change with the list.
pub index_of-append :
    (b : ℕ) (ls : List Location) (l : Location)
    → index_of l.addr ls ≡ none
    → index_of b (ls ++ l ∷ []) ≡ (if l.addr == b then some (length ls) else index_of b ls)
unfolding index_of
index_of-append b [] l h = refl
index_of-append b (k ∷ ls) l h = ground (arith, index_of-append b ls l)

pub index_of-set :
    (b : ℕ) (ls : List Location) (i : ℕ) (l l' : Location)
    → get_elem? ls i ≡ some l
    → l'.addr ≡ l.addr
    → index_of b (set ls i l') ≡ index_of b ls
unfolding index_of
index_of-set b [] i l l' h e = refl
index_of-set b (k ∷ ls) zero l l' h e = ground arith
index_of-set b (k ∷ ls) (suc i) l l' h e = ground (arith, index_of-set b ls i l l')

pub addr-read :
    (me : ℕ) (locks : LockTable) (l : Location) {l' : Location}
    → Location.read me locks l ≡ ok l'
    → l'.addr ≡ l.addr
unfolding Location.read
addr-read me locks l h = ground arith

pub addr-write :
    {V : Type 0} (v : V) (st : Store V) (l : Location) {l' : Location} {st' : Store V}
    → Location.write v st l ≡ ok (l', st')
    → l'.addr ≡ l.addr
unfolding Location.write
addr-write v st l h = ground arith

pub addr-new_read :
    (me : ℕ) (locks : LockTable) (a : ℕ) (reading : Bool) {l : Location}
    → Location.new_read me locks a reading ≡ ok l
    → l.addr ≡ a
unfolding Location.new_read Location.new_location Location.read
addr-new_read me locks a reading h = ground arith

pub addr-new_write :
    {V : Type 0} (a : ℕ) (v : V) (st : Store V) {l : Location} {st' : Store V}
    → Location.new_write a v st ≡ ok (l, st')
    → l.addr ≡ a
unfolding Location.new_write Location.new_location Location.write
addr-new_write a v st h = ground arith
