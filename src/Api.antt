-- ===== src/Api.antt =====
-- The public interface: src/api.
pub mod KeyPath
