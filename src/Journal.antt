-- ===== src/Journal.antt =====
-- The write-ahead log of src/journal: the record codec, the forward scanner and the file writer.
pub mod Record
pub mod Wire
pub mod Encode
pub mod Batch
pub mod Decode
pub mod Reader
pub mod Writer
pub mod GroupCommit
