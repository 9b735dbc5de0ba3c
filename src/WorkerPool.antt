-- ===== src/WorkerPool.antt =====
-- internal/worker: the pool of embedded PHP workers that the server runs on.
pub mod Worker
pub mod Ids
pub mod Pool
pub mod Upkeep
pub mod System
mod Tests
pub mod Ownership
pub mod Reload
pub mod RequestMode
pub mod WorkerMode
