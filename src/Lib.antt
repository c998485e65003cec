-- ===== src/Lib.antt =====
-- A model of tl2-cpp, a software transactional memory in C++ after the TL2 algorithm.
--
-- A program wraps accesses to `TVar`s in `atomically(lambda)`. Each thread has one transaction
-- manager. While the lambda runs, reads and writes of a `TVar` go through the log of the thread: a
-- location per address, which says whether it was read or written, and a buffer with the values
-- that are staged. At its end `try_commit` takes the locks of all locations, raises the global
-- clock, checks that nothing it has read is newer than its start, moves the staged values to the
-- variables with the new version, and gives the locks back. If the check fails, the lambda runs
-- again.
--
-- The files, each with the source that it models:
--   VersionLock    tl2/version_lock.h: the word of a lock and of the clock. Its operations are
--                  functions of the words that their atomic accesses see; a spin loop is one
--                  round, `none` if it goes on, and `lock_loop` and `get_version_loop` are whole
--                  loops over the rounds that they meet.
--   LockTable      tl2/hash_table.h: the word of each index, and the index of an address.
--   Store          tl2/memory.h, the buffer: cells that hold an object or are destroyed.
--   Location       tl2/op.h, `WriteVal` and `Location`.
--   Policy         tl2/memory.h, `PerThreadPolicy::clear`, and `SynchronizedPoolPolicy` (Pool).
--   LocationSet    tl2/op.h, `LocationHashVectorSet` (Hash); what it is refined to, a linear search
--                  in a list of locations (Entries); what it takes from the two vendored
--                  libraries, a map from addresses to positions and a sort (Vendored); and
--                  `LocationOrderedSet` (Ordered).
--   Log            tl2/log.h.
--   Manager        tl2/state.h, and the outcomes of a call: a result, an exception, a wait for
--                  ever, or undefined behaviour.
--   TVar           tl2/t_var.h: `load` is the conversion to `T`, `store` is the assignment.
--   LockGuard      tl2/lock_guard.h: `acquire` is the constructor, `release` the destructor.
--   Stm            tl2/stm.h: `commit` and `try_commit`, whose part under the locks is
--                  `commit_locked` with the loop `validate`.
--   Tx             the lambda, as a tree of its accesses: `run` makes them through `TVar`, `exec`
--                  is the specification, the lambda as one indivisible step on the data, which
--                  ends with a result or an exception of any kind.
--   Atomic         tl2/stm.h: `restore_args` and `atomically`, alone (Alone) and among other
--                  threads (Others is what they do, Attempt one round of the loop, Serial all);
--                  Escaped is what an exception leaves that is no `std::exception`.
--   Threads        several threads at once, a shared access at a time: the moves of a thread through
--                  the lambda, tl2/lock_guard.h and tl2/stm.h, and their runs. Ghost is what is true
--                  at each moment; Stable, Reads, Locks, Decide, Writes and Moves are why; Serial, Counter
--                  and Progress say what follows; Order is the order in which locks are taken, Held
--                  which locks a thread holds, and Clock how far the clock gets.
--   Heap           the nodes of the linked structures by their addresses, with what a structure
--                  consists of (Cells) and how a cell is taken out (Relink).
--   Lists          the clients that are lists: LinkedList (zoo/linked_list.h), HashMap
--                  (zoo/hash_map.h), OrderedLinkedList (zoo/ordered_ll.h), CoarseLinkedList
--                  (.graphs/coarse_linked_list), CoarseList, FineList and LockFreeList
--                  (graphs/ordered_ll, with copies in .graphs/linked_list). Sorted has the loops and
--                  laws that the sorted ones share.
--   Queues         StmQueue (.graphs/queue), StackStm (.graphs/coarse_stack), BoundedQueue
--                  (.graphs/bounded_queue), ProfileQueue (perf/profile_queue.cc), BatchQueue
--                  (.graphs/queue/batch_bench.cc, with its programs), and the programs QueueBench
--                  (.graphs/queue/bench.cc) and StackBench (.graphs/coarse_stack/bench.cc).
--   Bank           examples/bank: Account, Transaction (the `execute` of the three kinds), Books
--                  (what they do to the accounts), Logger and Server.
--   Perf           the transactions of perf/profile_counter.cc, profile_swap.cc, profile_array.cc and
--                  of .graphs/shared_counter and .graphs/batch_counter, with what they leave (Results).
--   Workload       graphs/ordered_ll/bench.cc: the filling of a list and the rounds of a thread that
--                  runs alone, for any list (Keys is what they ask of the list), and on the list that
--                  the program runs (Ordered).
--   Common         shared types, lists and results.
--   Tests          the theorems at concrete inputs, and some runs.
--
-- State. The shared state is the word of the clock, the table of locks, and the data of each
-- variable by the address of its `m_data`. A location set holds no pointer to data; a staged value
-- is the position of a cell of the buffer, and touching a cell that is not alive is a `fault`. All
-- variables hold one type of values; a staged `T` of the source is always read back as that `T`.
-- Words are natural numbers with the wrap at 2 ^ 64 written out.
--
-- Bounds and fuel. `atomically` is given a number of attempts; with none left it is `spinning`. One
-- attempt is enough where no other thread moves, and otherwise as many as reach one in which none
-- moves. Where an operation of a lock stands inside a longer call it is one round: if the lock is
-- held, the call is `spins`, since nobody else gives the lock back within that call. Other threads
-- are a function on the shared state that `atomically` applies between a body and its commit.
-- Versions are assumed below 2 ^ 63 where a theorem says so.
--
-- In Threads a state has all threads in it, each with where it stands and its local variables, and a
-- run is a list of moves of any of them in any order. There the memory is sequentially consistent,
-- the data are trivial, versions wrap at 2 ^ 63, and a wait for a lock is a move that cannot be made
-- yet. A thread whose transaction fails is outside of one, and may start the same lambda again; one
-- that an exception has left which is no `std::exception` makes no further move.
--
-- The clients. The body of an atomic block of a client is modelled as what it does at once on the
-- variables and nodes that it works on; `try_deq` of .graphs/bounded_queue, whose flag outlives an
-- aborted attempt, is the list of its attempts. `new` takes its address from an argument. A dereference of
-- a null pointer or of a freed node is a `fault`, a mutex that is held is `spins`. Loops take fuel,
-- one more than the nodes of the list; the rounds of the lock-free list take fuel too, of which one
-- is enough where no other thread moves. An `int` is given by its distance from INT_MIN. Hash
-- functions and the `==` of items are parameters.
--
-- Not modelled: the orders of the C++ memory model; the lock that a read of data that are not trivial
-- takes while other threads move at single accesses; the formatters of tl2/log.h under DEBUG; the
-- text that the exception handler prints; the pool of threads of the bank's server; the start of
-- threads, the clocks and the output of the timing programs; .graphs/bounded_queue/
-- bounded_queue_bench.cc, which has the marks of an unfinished merge; and the tests.
pub mod Common
pub mod VersionLock
pub mod LockTable
pub mod Store
pub mod Location
pub mod Policy
pub mod LocationSet
pub mod Log
pub mod Manager
pub mod TVar
pub mod LockGuard
pub mod Stm
pub mod Tx
pub mod Atomic
pub mod Heap
pub mod Lists
pub mod Queues
pub mod Bank
pub mod Perf
pub mod Threads
pub mod Workload
pub mod Tests
