-- ===== src/Lists.antt =====
-- The sorted linked lists of zoo/, graphs/ and .graphs/.
pub mod Sorted
pub mod LinkedList
pub mod HashMap
pub mod CoarseList
pub mod FineList
pub mod LockFreeList
pub mod CoarseLinkedList
pub mod OrderedLinkedList
