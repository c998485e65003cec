-- ===== src/LocationSet.antt =====
-- tl2/op.h, `LocationHashVectorSet` and `LocationOrderedSet`: the locations of one transaction.
-- `ankerl::unordered_dense::map` and `ska_sort`, vendored in tl2/, are parameters.
pub mod Entries
pub mod Hash
pub mod Ordered
pub mod Vendored
