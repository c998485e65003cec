-- ===== src/Bank.antt =====
-- examples/bank: accounts in a hash map, transactions on them, and the server's log.
pub mod Account
pub mod Transaction
pub mod Books
pub mod Logger
pub mod Server
