-- ===== src/LocationSet/Entries/Write.antt =====
-- What `write_entry` does to the staged values.
use tl2_cpp.Common.{
  ℕ, ◌+◌, ◌≤◌, ◌≡◌, refl, sym, ◌∙◌, Bool, true, false, none, some, List, [], ◌∷◌, ◌==◌, arith,
  if◌then◌else◌, inl, inr, All, Bool-cases, length,
}
use tl2_cpp.Common.Res.{ok}
use tl2_cpp.Store.{Store, construct, cell, alive, value}
use tl2_cpp.Store.Cells.{alive-length, alive-le_one, cell-construct, assign-alive}
use tl2_cpp.Location
use tl2_cpp.Location.{Location, WriteVal, blank, staged, val_addr}
use tl2_cpp.LocationSet.Entries.{write_entry, has_read, index_of, IsDistinct}
use tl2_cpp.LocationSet.Entries.Owned.{
  owns, owners, is_staged, IsEntry, IsUnowned, val_of, staged_value, IsBacked, staged_value-cells,
  val_of-cells, val_of-cells, tail-IsBacked,
}

module _ {V : Type 0} where
  -- `v` is stored in one cell, which was free or belonged to the entries before.
  pub record Stores (v : V) (owned : ℕ → ℕ) (st st' : Store V) (at : ℕ) : Type 0 where
    pub cells : (q : ℕ) → cell q st' ≡ (if at == q then some v else cell q st)
    pub own : alive at st ≡ owned at

  alive-Stores :
      {v : V} {owned : ℕ → ℕ} {st st' : Store V} {at : ℕ}
      → Stores v owned st st' at
      → (q : ℕ) → alive q st' ≡ (if at == q then 1 else alive q st)
  unfolding alive
  alive-Stores {at} s q = ground (arith, s.cells q)

  -- A write to one entry.
  record WroteLocation (v : V) (l : Location) (st : Store V) (l' : Location) (st' : Store V)
      : Type 0 where
    at : ℕ
    stores : Stores v (λ q. owns q l.write_val) st st' at
    addr : l'.addr ≡ l.addr
    val : l'.write_val ≡ staged at
    marked : l'.was_written ≡ true
    owner : l'.owner ≡ l.owner
    read : l'.was_read ≡ l.was_read
    balance : (q : ℕ) → owns q l'.write_val + alive q st ≡ owns q l.write_val + alive q st'

  alive-construct :
      (v : V) (st : Store V) (q : ℕ)
      → alive q (construct v st).1 ≡ (if length st == q then 1 else alive q st)
  unfolding alive
  alive-construct v st q = ground (arith, cell-construct v st q)

  alive-same :
      (p : ℕ) (v : V) (st st' : Store V) (q : ℕ)
      → cell q st' ≡ (if p == q then some v else cell q st)
      → alive q st' ≡ (if p == q then 1 else alive q st)
  unfolding alive
  alive-same p v st st' q h = ground arith

  write_own :
      (v : V) (st : Store V) (l : Location) (w : WriteVal) (b : Bool)
      → w ≡ l.write_val
      → b ≡ l.was_written
      → is_staged w ≡ b
      → ((p : ℕ) → owns p w ≤ alive p st)
      → (l' : Location) × (st' : Store V) × (Location.write v st l ≡ ok (l', st'))
        × WroteLocation v l st l' st'
  unfolding Location.write construct val_addr
  write_own v st l blank true ew eb e back = cc
  write_own v st l (staged p) false ew eb e back = cc
  write_own v st l blank false ew eb e back = (
    record l { write_val = staged (length st); was_written = true },
    (construct v st).1,
    rw (← eb),
    record {
      at = length st;
      stores = record { cells = cell-construct v st; own = rw (← ew) (alive-length st) };
      addr = refl;
      val = refl;
      marked = refl;
      owner = refl;
      read = refl;
      balance = λ q. rw (← ew) (ground (arith, alive-construct v st q, alive-length st));
    },
  )
  write_own v st l (staged p) true ew eb e back =
      let one : alive p st ≡ 1 = ground (arith, back p, alive-le_one p st) in
      let (st', done, cells) = assign-alive p v st one in
      (
        l,
        st',
        rw (← eb, ← ew, done),
        record {
          at = p;
          stores = record { cells = cells; own = rw (← ew) (ground arith) };
          addr = refl;
          val = sym ew;
          marked = sym eb;
          owner = refl;
          read = refl;
          balance = λ q. rw (← ew) (ground (arith, alive-same p v st st' q (cells q)));
        },
      )

  -- What a write to an address does to the entries and to the buffer.
  pub record WroteEntry (a : ℕ) (v : V) (ls : List Location) (st : Store V) (ls' : List Location)
      (st' : Store V) : Type 0 where
    pub at : ℕ
    pub stores : Stores v (λ q. owners q ls) st st' at
    pub balance : (q : ℕ) → owners q ls' + alive q st ≡ owners q ls + alive q st'
    pub entries : All IsEntry ls'
    pub absent : (b : ℕ) → (a == b) ≡ false → index_of b ls ≡ none → index_of b ls' ≡ none
    pub distinct : IsDistinct ls → IsDistinct ls'
    pub unowned : All IsUnowned ls → All IsUnowned ls'
    pub values :
        (b : ℕ) → staged_value b ls' st' ≡ (if a == b then ok (some v) else staged_value b ls st)
    pub reads : (b : ℕ) → has_read b ls' ≡ has_read b ls

  val_of-staged :
      {v : V} {owned : ℕ → ℕ} {st st' : Store V} {at : ℕ}
      → Stores v owned st st' at
      → val_of (staged at) true st' ≡ ok (some v)
  unfolding val_of value val_addr
  val_of-staged {at} s = rw (s.cells at) (ground arith)

  -- A write to a new entry.
  wrote_new :
      (a : ℕ) (v : V) (st : Store V)
      → (ls' : List Location) × (st' : Store V) × (write_entry a v st [] ≡ ok (ls', st'))
        × WroteEntry a v [] st ls' st'
  unfolding write_entry has_read index_of Location.new_write owners staged_value
      Location.new_location
  wrote_new a v st =
      let (l', st', e, w) =
        write_own v st (Location.new_location a) blank false refl refl refl (λ p. omega arith) in
      (
        l' ∷ [],
        st',
        rw e,
        record {
          at = w.at;
          stores = record { cells = w.stores.cells; own = w.stores.own };
          balance = λ q. ground (arith, w.balance q);
          entries = (rw (w.val, w.marked), tt);
          absent = λ b n h. rw w.addr (rw n);
          distinct = λ d. (refl, tt);
          unowned = λ u. (w.owner, tt);
          values = λ b. rw (w.val, w.marked, w.addr, val_of-staged w.stores) refl;
          reads = λ b. rw w.read;
        },
      )

  module _ (a : ℕ) (v : V) (l : Location) (ls : List Location) (st : Store V)
      (back : IsBacked (l ∷ ls) st) where
    -- A write that finds its entry at the head.
    wrote_head :
        {l' : Location} {st' : Store V}
        → (l.addr == a) ≡ true
        → WroteLocation v l st l' st'
        → WroteEntry a v (l ∷ ls) st (l' ∷ ls) st'
    unfolding has_read index_of owners staged_value
    wrote_head {l'} {st'} hit w = record {
      at = at;
      stores = record { cells = stores.cells; own = omega (arith, alone, stores.own) };
      balance = λ q. omega (arith, w.balance q);
      entries = (rw (w.val, w.marked), back.entries.1);
      absent = λ b n h. rw w.addr h;
      distinct = λ d. rw w.addr d;
      unowned = λ u. (w.owner ∙ u.0, u.1);
      values = λ b. elim (Bool-cases (a == b)) [
        | inl eq ↦ rw (w.val, w.marked, w.addr, val_of-staged stores) (ground arith)
        | inr ne ↦ rw (w.addr, ne) (ground (arith, rest b))
      ];
      reads = λ b. rw (w.read, w.addr);
    }
      where
        open w use {at, stores}

        alone : owners at ls ≡ 0
        alone = omega (arith, back.backed at, stores.own)

        rest : (b : ℕ) → staged_value b ls st' ≡ staged_value b ls st
        rest b =
            staged_value-cells b ls st st' back.entries.1
              (λ p n. ground (arith, stores.cells p, alone))

    -- A write that finds its entry behind the head.
    wrote_tail :
        {ls' : List Location} {st' : Store V}
        → (l.addr == a) ≡ false
        → WroteEntry a v ls st ls' st'
        → WroteEntry a v (l ∷ ls) st (l ∷ ls') st'
    unfolding has_read index_of owners staged_value
    wrote_tail {ls'} {st'} miss w = record {
      at = at;
      stores = record { cells = stores.cells; own = omega (arith, alone, stores.own) };
      balance = λ q. omega (arith, w.balance q);
      entries = (back.entries.0, w.entries);
      absent = λ b n h. ground (arith, w.absent b);
      distinct = λ d. (w.absent l.addr (ground arith) d.0, w.distinct d.1);
      unowned = λ u. (u.0, w.unowned u.1);
      values = λ b. ground (arith, head, w.values b);
      reads = λ b. rw (w.reads b);
    }
      where
        open w use {at, stores}

        alone : owns at l.write_val ≡ 0
        alone = omega (arith, back.backed at, stores.own)

        head : val_of l.write_val l.was_written st' ≡ val_of l.write_val l.was_written st
        head =
            val_of-cells l.write_val l.was_written st st' back.entries.0
              (λ p n. ground (arith, stores.cells p, alone))

  -- A write to an address finds its object alive, and is recorded as that of the address alone.
  pub write_entry-WroteEntry :
      (a : ℕ) (v : V) (ls : List Location) (st : Store V)
      → IsBacked ls st
      → (ls' : List Location) × (st' : Store V) × (write_entry a v st ls ≡ ok (ls', st'))
        × WroteEntry a v ls st ls' st'
  unfolding write_entry owners
  write_entry-WroteEntry a v [] st back = wrote_new a v st
  write_entry-WroteEntry a v (l ∷ ls) st back = elim (Bool-cases (l.addr == a)) [
    | inl hit ↦
        let (l', st', e, w) =
          write_own v st l l.write_val l.was_written refl refl back.entries.0
            (λ p. omega (arith, back.backed p)) in
        (l' ∷ ls, st', rw (hit, e), wrote_head a v l ls st back hit w)
    | inr miss ↦
        let (ls', st', e, w) = write_entry-WroteEntry a v ls st (tail-IsBacked l ls st back) in
        (l ∷ ls', st', rw (miss, e), wrote_tail a v l ls st back miss w)
  ]

  -- The entries still own what they stage.
  pub WroteEntry-IsBacked :
      {a : ℕ} {v : V} {ls ls' : List Location} {st st' : Store V}
      → IsBacked ls st
      → WroteEntry a v ls st ls' st'
      → IsBacked ls' st'
  WroteEntry-IsBacked back w = record {
    entries = w.entries;
    backed = λ p. omega (arith, w.balance p, back.backed p);
  }
