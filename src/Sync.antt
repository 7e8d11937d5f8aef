-- ===== src/Sync.antt =====
-- ham/base: the classes that threads share.
pub mod Monitor
pub mod BlockingQueue
pub mod BoundedBlockingQueue
pub mod CountDownLatch
pub mod ThreadPool
mod Examples
