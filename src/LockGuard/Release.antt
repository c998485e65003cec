-- ===== src/LockGuard/Release.antt =====
-- The destructor of tl2/lock_guard.h: it gives back the locks that the constructor took.
use tl2_cpp.Common.{
  ℕ, ◌≡◌, refl, ◌∙◌, Bool, true, false, none, List, [], ◌∷◌, ◌==◌, ◌||◌, arith, if◌then◌else◌,
  contains, map, All, inl, inr, Bool-cases, update, eq_of_==,
}
use tl2_cpp.VersionLock
use tl2_cpp.LockTable.{LockTable, index}
use tl2_cpp.Location
use tl2_cpp.Location.{Location, lock_ptr, mark_owner}
use tl2_cpp.LocationSet.Entries.Owned.{owners, IsEntry}
use tl2_cpp.LockGuard.{unlock_at, release}
use tl2_cpp.LockGuard.Acquire.{firsts, held_after}

-- Whether an address has an entry.
abbrev pub is_in : ℕ → List Location → Bool
is_in a [] = false
is_in a (l ∷ ls) = (l.addr == a) || is_in a ls

-- The same entries, but for their owners.
pub record SameEntries (ls ls' : List Location) : Type 0 where
  pub inside : (a : ℕ) → is_in a ls' ≡ is_in a ls
  pub owned : (p : ℕ) → owners p ls' ≡ owners p ls
  pub entries : All IsEntry ls → All IsEntry ls'

pub SameEntries-trans :
    {k l n : List Location} → SameEntries k l → SameEntries l n → SameEntries k n
SameEntries-trans s t = record {
  inside = λ a. t.inside a ∙ s.inside a;
  owned = λ p. t.owned p ∙ s.owned p;
  entries = λ e. t.entries (s.entries e);
}

pub mark_owner-SameEntries : (me : ℕ) (ls : List Location) → SameEntries ls (map (mark_owner me) ls)
unfolding mark_owner owners
mark_owner-SameEntries me [] = record { inside = λ a. refl; owned = λ p. refl; entries = λ e. e }
mark_owner-SameEntries me (l ∷ ls) =
    let s = mark_owner-SameEntries me ls in
    record {
      inside = λ a. rw (s.inside a);
      owned = λ p. rw (s.owned p);
      entries = λ e. (e.0, s.entries e.1);
    }

-- The table after one `unlock`.
abbrev unlocked_at : ℕ → LockTable → LockTable
unlocked_at i locks = update locks i (VersionLock.unlock (locks i))

unlock_at-is_in :
    (a : ℕ) (ls : List Location) (locks : LockTable)
    → is_in a ls ≡ true
    → (ls' : List Location) × (unlock_at a ls locks ≡ (ls', unlocked_at (index a) locks))
      × SameEntries ls ls'
unfolding unlock_at owners Location.unlock
unlock_at-is_in a [] locks h = cc
unlock_at-is_in a (l ∷ ls) locks h = elim (Bool-cases (l.addr == a)) [
  | inl hit ↦ (
    record l { owner = none } ∷ ls,
    rw (hit, unlock_at) (rw (eq_of_== l.addr a hit)),
    record { inside = λ b. refl; owned = λ p. refl; entries = λ e. e },
  )
  | inr miss ↦
      let (ls', e, s) = unlock_at-is_in a ls locks (ground arith) in
      (
        l ∷ ls',
        rw (miss, unlock_at) (rw e),
        record {
          inside = λ b. rw (s.inside b);
          owned = λ p. rw (s.owned p);
          entries = λ x. (x.0, s.entries x.1);
        },
      )
]

unlock-unlock : (s : ℕ) → VersionLock.unlock (VersionLock.unlock s) ≡ VersionLock.unlock s
unfolding VersionLock.unlock
unlock-unlock s = omega arith

-- If each address that it is given is in the set, the destructor unlocks the locks of those
-- addresses, and no others. The set has the same addresses then, its entries own the same objects,
-- and if each was staged exactly if it was written, each still is.
pub release-unlocks :
    (held : List ℕ) (ls : List Location) (locks : LockTable)
    → All (λ a. is_in a ls ≡ true) held
    → (ls' : List Location) × (locks' : LockTable) × (release held ls locks ≡ (ls', locks'))
      × SameEntries ls ls'
      × ((i : ℕ)
          → locks' i
            ≡ (if contains i (map index held) then VersionLock.unlock (locks i) else locks i))
unfolding release
release-unlocks [] ls locks h =
    (ls, locks, refl, record { inside = λ a. refl; owned = λ p. refl; entries = λ e. e }, λ i. refl)
release-unlocks (a ∷ held) ls locks h =
    let (ls₁, locks₁, e₁, s₁, t₁) = release-unlocks held ls locks h.1 in
    let (ls', e, s) = unlock_at-is_in a ls₁ locks₁ (s₁.inside a ∙ h.0) in
    (
      ls',
      unlocked_at (index a) locks₁,
      rw e₁ e,
      SameEntries-trans s₁ s,
      λ i. ground (arith, t₁ i, unlock-unlock (locks i)),
    )

weaken_in :
    (l : Location) (ls : List Location) (bs : List ℕ)
    → All (λ a. is_in a ls ≡ true) bs
    → All (λ a. is_in a (l ∷ ls) ≡ true) bs
weaken_in l ls [] h = tt
weaken_in l ls (a ∷ bs) h = (ground arith, weaken_in l ls bs h.1)

-- What the constructor hands to the destructor are addresses of its locations.
pub firsts-is_in :
    (held : List ℕ) (ls : List Location) → All (λ a. is_in a ls ≡ true) (firsts held ls)
unfolding firsts
firsts-is_in held [] = tt
firsts-is_in held (l ∷ ls) = elim (Bool-cases (contains (index l.addr) held)) [
  | inl old ↦ rw (old, firsts) (weaken_in l ls (firsts held ls) (firsts-is_in held ls))
  | inr new ↦
      rw (new, firsts) ((ground arith, weaken_in l ls _ (firsts-is_in (index l.addr ∷ held) ls)))
]

-- Their locks are the ones that the constructor took.
pub contains-firsts :
    (i : ℕ) (held : List ℕ) (ls : List Location)
    → (contains i held || contains i (map index (firsts held ls))) ≡ contains i (held_after held ls)
unfolding firsts held_after
contains-firsts i held [] = ground arith
contains-firsts i held (l ∷ ls) = elim (Bool-cases (contains (index l.addr) held)) [
  | inl old ↦ rw (old, firsts, held_after) (contains-firsts i held ls)
  | inr new ↦
      rw (new, firsts, held_after) (ground (arith, contains-firsts i (index l.addr ∷ held) ls))
]
