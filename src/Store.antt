-- ===== src/Store.antt =====
-- The key-value store: its table, server, chain of servers, clients and messages, under source and
-- include.
pub mod Keys
pub mod SortedList
pub mod Table
pub mod Server
pub mod Chain
pub mod Client
pub mod Wire
pub mod Tests
pub mod ChainTests
mod ClientTests
