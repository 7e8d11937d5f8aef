-- ===== src/Sync/Examples.antt =====
-- Concrete runs.
mod Queues
mod Threads
