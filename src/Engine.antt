-- ===== src/Engine.antt =====
-- The radix tree of one blob: src/engine.
pub mod Key
pub mod Allocator
pub mod Inner
pub mod Tree
pub mod Writers
pub mod Insert
pub mod Erase
pub mod Operations
pub mod Routes
pub mod Migrate
pub mod Forest
pub mod Merge
pub mod Spillover
