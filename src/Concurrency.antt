-- ===== src/Concurrency.antt =====
-- The latches and gates of src/concurrency as interleavings of their atomic operations.
pub mod Threads
pub mod Gate
pub mod HybridLatch
pub mod EndpointLocks
