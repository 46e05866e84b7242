-- ===== src/BufferManager.antt =====
-- The bookkeeping of the buffer manager: src/store/buffer_manager.
pub mod Mutation
