-- ===== src/Lists/HashMap.antt =====
-- zoo/hash_map.h, `HashMap`. Each bucket is a list of entries that match by their key; they share
-- the heap. `eq` is the `==` of the keys, `blank` the item that `LLNode(key)` constructs.
pub mod Buckets
pub mod Lookup
use tl2_cpp.Common.{ℕ, ◌+◌, ◌%◌, Bool, true, false, Option, none, some, update}
use tl2_cpp.Common.Res.{Res, ok, ◌>>=◌}
use mathlib.Core.Option
use tl2_cpp.Heap.{Heap}
use tl2_cpp.Lists.LinkedList
use tl2_cpp.Lists.LinkedList.{LinkedList}

-- `LLNode`
pub record Entry (K V : Type 0) : Type 0 where
  pub m_key : K
  pub item : V

-- `HASH_MOD`
abbrev pub hash_mod : ℕ
hash_mod = 1024

abbrev pub HashMap : Type 0
HashMap = ℕ → LinkedList

-- The constructor: all buckets are empty.
abbrev pub new : HashMap
new i = LinkedList.new

abbrev pub has_value : {A : Type 0} → Option A → Bool
has_value none = false
has_value (some a) = true

module _ {K V : Type 0} (eq : K → K → Bool) (hash : K → ℕ) (blank : V) where
  -- `LLNode(key)` and `LLNode(key, item)`
  abbrev pub probe : K → Entry K V
  probe key = record { m_key = key; item = blank }

  -- `operator==` of `LLNode`
  abbrev pub matches : Entry K V → Entry K V → Bool
  matches e f = eq e.m_key f.m_key

  abbrev pub bucket : K → ℕ
  bucket key = hash key % hash_mod

  unfoldable pub contains : ℕ → K → HashMap → Heap (Entry K V) → Res Bool
  contains k key buckets h = do
    entry ← LinkedList.get matches k (probe key) (buckets (bucket key)) h
    ok (has_value entry)

  unfoldable pub get : ℕ → K → HashMap → Heap (Entry K V) → Res (Option V)
  get k key buckets h = do
    entry ← LinkedList.get matches k (probe key) (buckets (bucket key)) h
    ok (Option.map (λ e. e.item) entry)

  -- `p` is the address that a new node has.
  unfoldable pub set : ℕ → ℕ → K → V → HashMap → Heap (Entry K V) → Res (HashMap × Heap (Entry K V))
  set k p key x buckets h = do
    let entry : Entry K V = record { m_key = key; item = x }
    (l, h') ← LinkedList.replace matches k p (probe key) entry (buckets (bucket key)) h
    ok (update buckets (bucket key) l, h')
