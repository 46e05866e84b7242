-- ===== src/Layout.antt =====
-- The layout of a blob: src/layout.
pub mod Node
pub mod Slot
