-- ===== src/VersionLock/Rounds.antt =====
-- The spinning loops of tl2/version_lock.h: when they end, and with what.
use tl2_cpp.Common.{
  ℕ, ◌+◌, ◌≡◌, refl, inl, inr, true, false, none, some, List, [], ◌∷◌, arith, Bool-cases,
  Option-cases,
}
use tl2_cpp.VersionLock.{
  is_locked, unsafe_get_version, get_version, Round, lock, unlock, lock_loop, get_version_loop,
}
use tl2_cpp.VersionLock.Pack.{unlock-lock}

-- A round that meets a free lock, no other thread and no spurious failure.
abbrev pub IsClear : Round → Type 0
IsClear r = (is_locked r.seen ≡ false) × (r.spurious ≡ false) × (r.seen ≡ r.now)

-- Some item of the list satisfies `P`.
pub data Among {ℓ κ} {A : Type ℓ} (P : A → Type κ) : List A → Type (ℓ ⊔ κ) where
  here : {x : A} {xs : List A} → P x → Among P (x ∷ xs)
  there : {x : A} {xs : List A} → Among P xs → Among P (x ∷ xs)

lock-IsClear : (r : Round) → IsClear r → (s : ℕ) × (lock r ≡ some s)
unfolding lock
lock-IsClear r (free, sure, alone) = (r.seen + 1, ground arith)

-- The round has stored the word `s`: it has found the lock free, and `s` gives the word back.
abbrev pub Acquired : ℕ → Round → Type 0
Acquired s r =
    (lock r ≡ some s)
    × (is_locked r.now ≡ false)
    × (unsafe_get_version s ≡ unsafe_get_version r.now)
    × (unlock s ≡ r.now)

first_won :
    (s : ℕ) (r : Round) (rs : List Round)
    → lock r ≡ some s
    → (s : ℕ) × (lock_loop (r ∷ rs) ≡ some s) × (is_locked s ≡ true) × Among (Acquired s) (r ∷ rs)
unfolding lock_loop
first_won s r rs won =
    let (free, held, same, back) = unlock-lock r won in
    (s, rw (won, lock_loop), held, here (won, free, same, back))

get_version-free : (s : ℕ) → is_locked s ≡ false → get_version s ≡ some (unsafe_get_version s)
unfolding get_version unsafe_get_version
get_version-free s h = rw h

get_version-held : (s : ℕ) → is_locked s ≡ true → get_version s ≡ none
unfolding get_version
get_version-held s h = rw h

-- The loop of `lock` returns if one of its rounds is clear. The word that it has stored is locked:
-- some round has stored it, which found the lock free at its exchange; the word has the version of
-- the one that stood there, and `unlock` gives that one back.
pub lock_loop-acquires :
    (rs : List Round)
    → Among IsClear rs
    → (s : ℕ) × (lock_loop rs ≡ some s) × (is_locked s ≡ true) × Among (Acquired s) rs
unfolding lock_loop
lock_loop-acquires [] a = elim a [ ]
lock_loop-acquires (r ∷ rs) (here c) = let (s, won) = lock-IsClear r c in first_won s r rs won
lock_loop-acquires (r ∷ rs) (there a) = elim (Option-cases (lock r)) [
  | inl lost ↦
      let (s, e, held, w) = lock_loop-acquires rs a in (s, rw (lost, lock_loop) e, held, there w)
  | inr (s, won) ↦ first_won s r rs won
]

-- The loop of `get_version` returns if one of its loads sees a free lock, and then it returns the
-- version of a word that it saw free.
pub get_version_loop-returns :
    (ss : List ℕ)
    → Among (λ s. is_locked s ≡ false) ss
    → (v : ℕ) × (get_version_loop ss ≡ some v)
      × Among (λ s. (is_locked s ≡ false) × (unsafe_get_version s ≡ v)) ss
unfolding get_version_loop
get_version_loop-returns [] a = elim a [ ]
get_version_loop-returns (s ∷ ss) (here free) =
    (unsafe_get_version s, rw (get_version-free s free, get_version_loop), here (free, refl))
get_version_loop-returns (s ∷ ss) (there a) = elim (Bool-cases (is_locked s)) [
  | inl held ↦
      let (v, e, w) = get_version_loop-returns ss a in
      (v, rw (get_version-held s held, get_version_loop) e, there w)
  | inr free ↦
      (unsafe_get_version s, rw (get_version-free s free, get_version_loop), here (free, refl))
]
