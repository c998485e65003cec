-- ===== src/Tests.antt =====
-- Small runs of the models, and the theorems at concrete inputs.
mod Concrete
mod Core
mod Lists
mod Clients
mod Accounts
mod LockFree
mod Locks
mod Ordered
mod Rival
mod Threads
mod Workloads
