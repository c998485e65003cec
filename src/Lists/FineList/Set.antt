-- ===== src/Lists/FineList/Set.antt =====
-- `FineList` as a set of keys, and its mutexes.
use tl2_cpp.Common.{ℕ, ◌<◌, ◌≡◌, ◌≢◌, refl, ap, ◌∙◌, not, none, List, length}
use tl2_cpp.Common.Res.{ok}
use tl2_cpp.Heap.{Heap, null}
use tl2_cpp.Lists.Sorted.{Entry, entry, int_min}
use tl2_cpp.Lists.Sorted.Keys.{has_key}
use tl2_cpp.Lists.Sorted.Laws.{Split-nodes}
use tl2_cpp.Lists.Sorted.Ends.{
  IsInner, IsList, link-at, unlink-at, has_key-full, locate-Split, reaches-tail,
}
use tl2_cpp.Lists.Sorted.Results.{Added, Removed, Added-link, Removed-unlink}
use tl2_cpp.Lists.FineList.{FineList, add, remove, contains}
use tl2_cpp.Lists.FineList.Coupling.{
  no_one, new-both, enter-locate, leave-Live, Live-link, Live-unlink,
}

module _ {T : Type 0} (hash : T → ℕ) where
  -- With all mutexes free, an inner key for the item, a fresh node and fuel for all nodes: `add` adds
  -- the key and returns whether it was new; `remove` takes the key out and returns whether it was
  -- there; `contains` returns whether it is there. None of them waits, and each leaves all mutexes
  -- free.
  pub fine-ops :
      (fuel p : ℕ) (x : T) (l : FineList) (h : Heap (Entry T)) (mid : List (ℕ × Entry T))
      → IsList l.tail l.head l.tail h mid
      → IsInner (hash x)
      → length mid < fuel
      → p ≢ null
      → h p ≡ none
      → ((h' : Heap (Entry T)) × (add hash fuel p x l no_one h
            ≡ ok (not (has_key (hash x) mid), no_one, h'))
          × Added l.tail l.head l.tail (hash x) mid h')
        × ((h' : Heap (Entry T)) × (remove hash fuel x l no_one h
              ≡ ok (has_key (hash x) mid, no_one, h'))
            × Removed l.tail l.head l.tail (hash x) mid h')
        × (contains hash fuel x l no_one h ≡ ok (has_key (hash x) mid, no_one))
  unfolding add remove contains
  fine-ops fuel p x l h mid s inner enough ne fresh =
      let (a, b, found, split) =
        locate-Split l.tail l.head l.tail h mid s fuel (hash x) inner enough in
      let (n, o, at₁, at₂, known) = Split-nodes l.tail h (hash x) _ a b split s.cells s.order in
      let (h₁, done₁, set₁) =
        link-at l.tail l.head l.tail h mid s fuel (hash x) inner enough a b split p x ne fresh in
      let (h₂, done₂, set₂) =
        unlink-at l.tail l.head l.tail h mid s fuel (hash x) inner enough a b split in
      let entered =
        enter-locate fuel l.tail (hash x) l.head (entry none int_min) h _ s.cells
          (reaches-tail (hash x) l.tail mid inner.1) found in
      let left₁ =
        leave-Live h₁ a b (Live-link p x (hash x) h a b a done₁ (n, at₁))
          (Live-link p x (hash x) h a b b done₁ (o, at₂)) in
      let left₂ =
        leave-Live h₂ a b (Live-unlink (hash x) h a b a done₂ (n, at₁))
          (Live-unlink (hash x) h a b b done₂ (o, at₂)) in
      let same = new-both h p a b fresh (n, at₁) (o, at₂) (not (has_key (hash x) mid)) in
      let member = known ∙ has_key-full l.tail l.head l.tail h mid s fuel (hash x) inner enough in
      (
        (
          h₁,
          rw (entered, done₁) (rw same (rw left₁ refl)),
          Added-link l.tail l.head l.tail (hash x) mid p x h₁ set₁,
        ),
        (
          h₂,
          rw (entered, done₂) (rw left₂ refl),
          Removed-unlink l.tail l.head l.tail (hash x) mid h₂ s.order set₂,
        ),
        rw (entered, at₂)
            (rw (leave-Live h a b (n, at₁) (o, at₂)) (ap (λ c. ok (c, no_one)) member)),
      )
