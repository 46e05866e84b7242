-- ===== src/Journal/Record.antt =====
-- journal/wal_op.rs and the constants of journal/codec.rs. The inner operations of a batch are
-- primitive by type: the encoder panics on a nested batch, and the decoder refuses one by its tag.
use artisan.Prelude.{ℕ, ◌<◌, ◌^◌, Bool, List}

-- The primitive variants of `WalOp`.
pub data Primitive : Type 0 where
  insert : (tree_id : ℕ) (key value : List ℕ) → Primitive
  erase : (tree_id : ℕ) (key : List ℕ) → Primitive
  rename_object : (tree_id : ℕ) (src_key dst_key : List ℕ) (force : Bool) → Primitive

pub data WalOp : Type 0 where
  primitive : Primitive → WalOp
  batch : List Primitive → WalOp

-- "RECR"
abbrev pub record_magic : ℕ
record_magic = 0x5243_4552

abbrev pub record_header_size : ℕ
record_header_size = 17

abbrev pub record_footer_size : ℕ
record_footer_size = 4

-- "WALA"
abbrev pub file_magic : ℕ
file_magic = 0x414C_4157

abbrev pub format_version : ℕ
format_version = 3

abbrev pub file_header_size : ℕ
file_header_size = 32

abbrev pub ty_insert : ℕ
ty_insert = 0

abbrev pub ty_erase : ℕ
ty_erase = 1

abbrev pub ty_rename_object : ℕ
ty_rename_object = 5

abbrev pub ty_batch : ℕ
ty_batch = 10

abbrev pub ty_batch_insert_run : ℕ
ty_batch_insert_run = 11

-- What the codec calls outside the repository: `crc32fast::hash`, some function of the bytes into a
-- u32, and the allocator, which grants room for a count of operations or refuses it.
pub record Platform : Type 0 where
  pub hash : List ℕ → ℕ
  pub hash_lt : (bytes : List ℕ) → hash bytes < 2 ^ 32
  pub grants : ℕ → Bool
