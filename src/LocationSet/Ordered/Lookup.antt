-- ===== src/LocationSet/Ordered/Lookup.antt =====
-- `LocationOrderedSet` as a map from addresses to locations.
use tl2_cpp.Common.{
  ℕ, ◌<◌, ◌≡◌, refl, true, false, Option, none, some, List, [], ◌∷◌, ◌==◌, ltb, arith, subst, ap,
  sym, ◌∙◌, inl, inr, if◌then◌else◌, Bool-cases, Option-cases,
}
use tl2_cpp.Common.Res.{ok}
use tl2_cpp.LockTable.{LockTable}
use tl2_cpp.Store.{Store}
use tl2_cpp.Location
use tl2_cpp.Location.{Location, new_location}
use tl2_cpp.LocationSet.Ordered.{find, replace, insert, register_read, read_found, register_write}

-- Every address is above `a`, and they ascend, so that none stands twice.
abbrev pub IsAbove : ℕ → List Location → Type 0
IsAbove a [] = Unit
IsAbove a (l ∷ ls) = (a < l.addr) × IsAbove l.addr ls

abbrev pub IsAscending : List Location → Type 0
IsAscending [] = Unit
IsAscending (l ∷ ls) = IsAbove l.addr ls

-- What is changed by one address: its entry is now `x`.
pub record Holds (a : ℕ) (x : Location) (ls ls' : List Location) : Type 0 where
  pub order : IsAscending ls'
  pub above : (b : ℕ) → b < a → IsAbove b ls → IsAbove b ls'
  pub looks : (b : ℕ) → find b ls' ≡ (if a == b then some x else find b ls)

IsAbove-IsAscending : (a : ℕ) (ls : List Location) → IsAbove a ls → IsAscending ls
IsAbove-IsAscending a [] h = tt
IsAbove-IsAscending a (l ∷ ls) h = h.1

find-above : (a b : ℕ) (ls : List Location) → IsAbove b ls → ltb b a ≡ false → find a ls ≡ none
unfolding find new_location
find-above a b [] h k = refl
find-above a b (l ∷ ls) h k = ground (arith, h.0)

insert-new :
    (x : Location) (ls : List Location)
    → IsAscending ls
    → find x.addr ls ≡ none
    → ((insert x ls).1 ≡ true) × Holds x.addr x ls (insert x ls).0
unfolding insert find new_location
insert-new x [] h gone =
    (refl, record { order = tt; above = λ b lt h. (lt, tt); looks = λ b. ground arith })
insert-new x (l ∷ ls) h gone = elim (Bool-cases (ltb l.addr x.addr)) [
  | inl lo ↦
      let (new, t) = insert-new x ls (IsAbove-IsAscending l.addr ls h) (ground arith) in
      let below : l.addr < x.addr = ground arith in
      (
        rw (lo, insert) new,
        rw (lo, insert)
            (record {
              order = t.above l.addr below h;
              above = λ b lt hb. (hb.0, t.above l.addr below hb.1);
              looks = λ b. ground (arith, t.looks b);
            }),
      )
  | inr hi ↦ elim (Bool-cases (ltb x.addr l.addr)) [
    | inl up ↦
        let below : x.addr < l.addr = ground arith in
        (
          rw (hi, up, insert) refl,
          rw (hi, up, insert)
              (record {
                order = (below, h);
                above = λ b lt hb. (lt, (below, hb.1));
                looks = λ b. ground arith;
              }),
        )
    | inr eq ↦ absurd (ground (arith, gone))
  ]
]

insert-old :
    (a : ℕ) (x : Location) (ls : List Location) (l : Location)
    → x.addr ≡ a
    → IsAscending ls
    → find a ls ≡ some l
    → (insert x ls).1 ≡ false
unfolding insert find new_location
insert-old a x [] l e h got = cc
insert-old a x (k ∷ ls) l e h got = elim (Bool-cases (ltb k.addr a)) [
  | inl lo ↦
      let rest = insert-old a x ls l e (IsAbove-IsAscending k.addr ls h) (ground arith) in
      ground (arith, rest)
  | inr hi ↦ ground (arith, got)
]

replace-found :
    (a : ℕ) (x l : Location) (ls : List Location)
    → IsAscending ls
    → find a ls ≡ some l
    → x.addr ≡ a
    → Holds a x ls (replace a x ls)
unfolding replace find new_location
replace-found a x l [] h got e = cc
replace-found a x l (k ∷ ls) h got e = elim (Bool-cases (ltb k.addr a)) [
  | inl lo ↦
      let t = replace-found a x l ls (IsAbove-IsAscending k.addr ls h) (ground arith) e in
      let below : k.addr < a = ground arith in
      rw (lo, replace)
        (record {
          order = t.above k.addr below h;
          above = λ b lt hb. (hb.0, t.above k.addr below hb.1);
          looks = λ b. ground (arith, t.looks b);
        })
  | inr hi ↦ elim (Bool-cases (ltb a k.addr)) [
    | inl up ↦ absurd (ground (arith, got))
    | inr eq ↦
        let same : k.addr ≡ x.addr = ground arith in
        rw (hi, eq, replace)
          (record {
            order = subst (λ n. IsAbove n ls) same h;
            above = λ b lt hb. (omega (arith, e), subst (λ n. IsAbove n ls) same hb.1);
            looks = λ b. ground arith;
          })
  ]
]

-- The location that stands for an address: the one in the set, or a new one.
abbrev pub item_of : ℕ → Option Location → Location
item_of a none = new_location a
item_of a (some l) = l

abbrev pub item : ℕ → List Location → Location
item a set = item_of a (find a set)

find-addr : (a : ℕ) (ls : List Location) (l : Location) → find a ls ≡ some l → l.addr ≡ a
unfolding find new_location
find-addr a [] l h = cc
find-addr a (k ∷ ls) l h = elim (Bool-cases (ltb k.addr a)) [
  | inl lo ↦ find-addr a ls l (ground arith)
  | inr hi ↦ elim (Bool-cases (ltb a k.addr)) [
    | inl up ↦ absurd (ground (arith, h))
    | inr eq ↦
        let same : k ≡ l = ground (arith, h) in
        ap (λ (x : Location). x.addr) (sym same) ∙ ground arith
  ]
]

insert-addr :
    (a : ℕ) (x : Location) (ls : List Location)
    → x.addr ≡ a
    → IsAscending ls
    → find a ls ≡ none
    → ((insert x ls).1 ≡ true) × Holds a x ls (insert x ls).0
insert-addr a x ls e h gone =
    let (new, t) = insert-new x ls h (ap (λ b. find b ls) e ∙ gone) in
    (new, subst (λ b. Holds b x ls (insert x ls).0) e t)

write-addr :
    {V : Type 0} (v : V) (st : Store V) (l x : Location) (st' : Store V)
    → Location.write v st l ≡ ok (x, st')
    → x.addr ≡ l.addr
unfolding Location.write
write-addr v st l x st' h = ground arith

read-addr :
    (me : ℕ) (locks : LockTable) (l x : Location)
    → Location.read me locks l ≡ ok x
    → x.addr ≡ l.addr
unfolding Location.read
read-addr me locks l x h = ground arith

-- In a set with ascending addresses, if the write to the address's location ends well, so does
-- `register_write`: the set stays ascending, has the written location at its address, and has at
-- every other address what it had.
pub register_write-Holds :
    {V : Type 0} (a : ℕ) (v : V) (st : Store V) (set : List Location) {x : Location} {st' : Store V}
    → IsAscending set
    → Location.write v st (item a set) ≡ ok (x, st')
    → (set' : List Location) × (register_write a v st set ≡ ok (set', st')) × Holds a x set set'
unfolding register_write new_location
register_write-Holds a v st set {x} {st'} h e = elim (Option-cases (find a set)) [
  | inl gone ↦
      let e' : Location.write v st (new_location a) ≡ ok (x, st') =
        ap (λ o. Location.write v st (item_of a o)) (sym gone) ∙ e in
      (
        (insert x set).0,
        rw (gone, register_write, e') refl,
        (insert-addr a x set (write-addr v st (new_location a) x st' e') h gone).1,
      )
  | inr (l, got) ↦
      let e' : Location.write v st l ≡ ok (x, st') =
        ap (λ o. Location.write v st (item_of a o)) (sym got) ∙ e in
      (
        replace a x set,
        rw (got, register_write, e') refl,
        replace-found a x l set h got (write-addr v st l x st' e' ∙ find-addr a set l got),
      )
]

-- In a set with ascending addresses, if the read of a new location of the address ends well and so
-- does that of the address's location, then `register_read` does: the set stays ascending, has the
-- location that is read at its address, and has at every other address what it had.
pub register_read-Holds :
    (me : ℕ) (locks : LockTable) (a : ℕ) (set : List Location) {x y : Location}
    → IsAscending set
    → Location.read me locks (new_location a) ≡ ok y
    → Location.read me locks (item a set) ≡ ok x
    → (set' : List Location) × (register_read me locks a set ≡ ok set') × Holds a x set set'
unfolding register_read read_found new_location Location.new_read
register_read-Holds me locks a set {x} {y} h ey e = elim (Option-cases (find a set)) [
  | inl gone ↦
      let e' : Location.read me locks (new_location a) ≡ ok x =
        ap (λ o. Location.read me locks (item_of a o)) (sym gone) ∙ e in
      let (new, t) = insert-addr a x set (read-addr me locks (new_location a) x e') h gone in
      (
        (insert x set).0,
        rw e' (ap (λ b. if b then ok (insert x set).0 else read_found me locks a set) new),
        t,
      )
  | inr (l, got) ↦
      let e' : Location.read me locks l ≡ ok x =
        ap (λ o. Location.read me locks (item_of a o)) (sym got) ∙ e in
      let old : (insert y set).1 ≡ false =
        insert-old a y set l (read-addr me locks (new_location a) y ey) h got in
      (
        replace a x set,
        rw ey (
            ap (λ b. if b then ok (insert y set).0 else read_found me locks a set) old
            ∙ rw (got, read_found, e') refl),
        replace-found a x l set h got (read-addr me locks l x e' ∙ find-addr a set l got),
      )
]
