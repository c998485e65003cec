-- ===== src/Workload/Ordered.antt =====
-- The workload of graphs/ordered_ll/bench.cc on the list that its `main` runs it on, the
-- `OrderedLinkedList` of zoo/ordered_ll.h. `hash` is the key that `std::hash<int>` gives an item.
use tl2_cpp.Common.{
  ℕ, suc, ◌+◌, ◌≤◌, ◌<◌, ◌^◌, ◌≡◌, refl, ap, ◌∙◌, Bool, true, false, not, none, some, List, [],
  length, if◌then◌else◌, update, arith, All,
}
use tl2_cpp.Common.Res.{Res, ok, ◌>>=◌}
use tl2_cpp.Heap.{Heap, null}
use tl2_cpp.Lists.Sorted.{Entry, entry}
use tl2_cpp.Lists.Sorted.Keys.{has_key, insert_key, erase_key}
use tl2_cpp.Lists.Sorted.Ends.{IsInner, IsList, link-IsList, unlink-IsList, seek-head}
use tl2_cpp.Lists.Sorted.Results.{has_key-linked, has_key-unlinked}
use tl2_cpp.Lists.Sorted.Fresh.{link-dead, unlink-dead, length-insert_key, length-erase_key}
use tl2_cpp.Lists.OrderedLinkedList
use tl2_cpp.Lists.OrderedLinkedList.{OrderedLinkedList}
use tl2_cpp.Lists.OrderedLinkedList.Set.{new-Holds}
use tl2_cpp.Workload.{Workload, ListOps, Draw, prefill, rounds}
use tl2_cpp.Workload.Keys.{IsSetList, Leaves, at_end, filled, rounds-prefill}

-- The list with its heap; `next` is the address that `new` gives next.
pub record Site : Type 0 where
  pub list : OrderedLinkedList
  pub heap : Heap (Entry ℕ)
  pub next : ℕ

-- The list that the constructor makes in an empty heap.
abbrev pub fresh_site : Site
fresh_site =
    let h : Heap (Entry ℕ) = λ p. none in
    record {
      list = (OrderedLinkedList.new {T = ℕ} 1 2 h).0;
      heap = (OrderedLinkedList.new {T = ℕ} 1 2 h).1;
      next = 3;
    }

module _ (hash : ℕ → ℕ) where
  -- The loops are given as many rounds as addresses have been taken.
  abbrev pub contains : ℕ → Site → Res (Bool × Site)
  contains k s = do b ← OrderedLinkedList.contains hash (suc s.next) k s.list s.heap; ok (b, s)

  abbrev pub add : ℕ → Site → Res (Bool × Site)
  add k s = do
    (b, h) ← OrderedLinkedList.add hash s.next s.next k s.list s.heap
    ok (b, record s { heap = h; next = suc s.next })

  abbrev pub remove : ℕ → Site → Res (Bool × Site)
  remove k s = do
    (b, h) ← OrderedLinkedList.remove hash s.next k s.list s.heap
    ok (b, record s { heap = h })

  abbrev pub ordered : ListOps Site
  ordered = record { contains = contains; add = add; remove = remove }

-- The heap holds the list with the keys `ks`, and has no node from the next address on.
pub record Keeps (s : Site) (ks : ℕ → Bool) : Type 0 where
  pub mid : List (ℕ × Entry ℕ)
  pub set : IsList null s.list.head s.list.tail s.heap mid
  pub keys : (k : ℕ) → has_key k mid ≡ ks k
  pub few : length mid < s.next
  pub dead : (p : ℕ) → s.next ≤ p → s.heap p ≡ none

module _ (hash : ℕ → ℕ) where
  add-Keeps :
      (s : Site) (ks : ℕ → Bool) (x : ℕ)
      → Keeps s ks
      → IsInner (hash x)
      → Leaves Keeps (add hash x s) (not (ks (hash x))) (update ks (hash x) true)
  unfolding OrderedLinkedList.add
  add-Keeps s ks x c inner =
      let k = hash x in
      let (pred, curr, h', at, done, set) =
        link-IsList null s.list.head s.list.tail s.heap c.mid c.set s.next k inner c.few s.next x
          (omega (arith, c.few)) (c.dead s.next (omega arith)) in
      (
        record s { heap = h'; next = suc s.next },
        rw (at, done) (ap (λ b. ok (not b, record s { heap = h'; next = suc s.next })) (c.keys k)),
        record {
          mid = if has_key k c.mid then c.mid else insert_key s.next (entry (some x) k) c.mid;
          set = set;
          keys = λ j.
              has_key-linked null s.list.head s.list.tail k c.mid s.next x j
              ∙ ground (arith, c.keys j);
          few = ground (arith, c.few, length-insert_key s.next (entry (some x) k) c.mid);
          dead = λ p i.
              link-dead s.next x k s.heap h' pred curr p (not (has_key k c.mid)) done
                (ground (arith, i)) (c.dead p (omega (arith, i)));
        },
      )

  remove-Keeps :
      (s : Site) (ks : ℕ → Bool) (x : ℕ)
      → Keeps s ks
      → IsInner (hash x)
      → Leaves Keeps (remove hash x s) (ks (hash x)) (update ks (hash x) false)
  unfolding OrderedLinkedList.remove
  remove-Keeps s ks x c inner =
      let k = hash x in
      let (pred, curr, h', at, done, set) =
        unlink-IsList null s.list.head s.list.tail s.heap c.mid c.set s.next k inner c.few in
      (
        record s { heap = h' },
        rw (at, done) (ap (λ b. ok (b, record s { heap = h' })) (c.keys k)),
        record {
          mid = if has_key k c.mid then erase_key k c.mid else c.mid;
          set = set;
          keys = λ j.
              has_key-unlinked null s.list.head s.list.tail k c.mid j c.set.order
              ∙ ground (arith, c.keys j);
          few = ground (arith, c.few, length-erase_key k c.mid);
          dead = λ p i. unlink-dead k s.heap h' pred curr p (has_key k c.mid) done (c.dead p i);
        },
      )

  contains-Keeps :
      (s : Site) (ks : ℕ → Bool) (x : ℕ)
      → Keeps s ks
      → IsInner (hash x)
      → Leaves Keeps (contains hash x s) (ks (hash x)) ks
  unfolding OrderedLinkedList.contains
  contains-Keeps s ks x c inner =
      let k = hash x in
      (
        s,
        rw (seek-head null s.list.head s.list.tail s.heap c.mid c.set s.next k inner c.few)
            (ap (λ b. ok (b, s)) (c.keys k)),
        c,
      )

  pub ordered-IsSetList : IsSetList hash (ordered hash)
  ordered-IsSetList = record {
    Holds = Keeps;
    contains_lem = contains-Keeps;
    add_lem = add-Keeps;
    remove_lem = remove-Keeps;
  }

  fresh_site-Keeps : Keeps fresh_site (λ k. false)
  unfolding OrderedLinkedList.new
  fresh_site-Keeps = record {
    mid = [];
    set = new-Holds 1 2 (λ p. none) (omega arith) (omega arith) (omega arith);
    keys = λ k. refl;
    few = omega arith;
    dead = λ p i. ground (arith, i);
  }

  -- Let the keys of the items that are filled in and of those that are drawn be between the keys of
  -- the end nodes. On a new `OrderedLinkedList` the filling, and then the rounds of a thread that
  -- runs alone, end and leave a sorted list. Its keys are those that the last round which added or
  -- removed them added, and those without such a round that were filled in.
  pub ordered-rounds :
      (w : Workload) (count : ℕ) (ds : List Draw)
      → ((i : ℕ) → i < count → IsInner (hash (i + 2 ^ 31)))
      → All (λ d. IsInner (hash d.key)) ds
      → (s : Site) × (mid : List (ℕ × Entry ℕ)) × ((do
        s₁ ← prefill (ordered hash) count 0 fresh_site
        rounds (ordered hash) w ds s₁)
          ≡ ok s)
        × IsList null s.list.head s.list.tail s.heap mid
        × ((k : ℕ) → has_key k mid ≡ at_end hash w k ds (filled hash count 0 k))
  unfolding ordered-IsSetList
  ordered-rounds w count ds within inner =
      let (s, e, c) =
        rounds-prefill hash (ordered hash) ordered-IsSetList w count ds fresh_site fresh_site-Keeps
          within inner in
      (s, c.mid, e, c.set, c.keys)
