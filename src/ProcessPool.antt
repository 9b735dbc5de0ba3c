-- ===== src/ProcessPool.antt =====
-- internal/pool: the pool of external PHP processes, and the watcher that reloads it.
pub mod Worker
pub mod Pool
pub mod Serve
pub mod Upkeep
pub mod Balance
pub mod Spawning
pub mod Requests
pub mod History
pub mod Exchange
pub mod Answers
pub mod Lost
pub mod System
pub mod Ownership
pub mod Sequential
pub mod Pairing
pub mod Twice
mod Tests
pub mod Watcher
