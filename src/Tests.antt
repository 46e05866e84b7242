-- ===== src/Tests.antt =====
-- The theorems applied at concrete inputs.
mod Data
mod Log
mod Writer
mod Gate
mod Latch
mod Locks
mod Blob
mod Tree
mod Keys
mod Migrate
