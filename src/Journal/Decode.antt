-- ===== src/Journal/Decode.antt =====
-- The decoders of journal/codec.rs. A cursor `&mut &[u8]` is passed in and handed back.
pub mod Reads
pub mod Batches
pub mod Records
pub mod Torn
pub mod Total
pub mod RoundTrip
use Prim.Native.String.{String}
use artisan.Prelude.{
  ℕ, zero, suc, ◌+◌, not, List, [], ◌∷◌, ◌++◌, ltb, ◌==◌, if◌then◌else◌, length, take, drop, get_or,
  slice,
}
use artisan.Prelude.Bytes.{from_le_bytes, le_bytes}
use artisan.Errors.{Error, replay_sanity_failed, Outcome, ok, err, panic, out_of_fuel, ◌>>=◌}
use artisan.Journal.Record.{
  Platform, Primitive, insert, erase, rename_object, WalOp, primitive, batch, record_magic,
  record_header_size, record_footer_size, file_magic, format_version, file_header_size, ty_insert,
  ty_erase, ty_rename_object, ty_batch, ty_batch_insert_run,
}

abbrev pub sanity : String → Error
sanity context = replay_sanity_failed context 0

-- `take`
unfoldable pub take_bytes : List ℕ → ℕ → Outcome (List ℕ × List ℕ)
take_bytes buf n =
    if ltb (length buf) n then err (sanity "body truncated") else ok (take n buf, drop n buf)

unfoldable pub read_u8 : List ℕ → Outcome (ℕ × List ℕ)
unfolding take_bytes
read_u8 body = do (front, rest) ← take_bytes body 1; ok (get_or front 0 0, rest)

unfoldable pub read_u32 : List ℕ → Outcome (ℕ × List ℕ)
unfolding take_bytes
read_u32 body = do (front, rest) ← take_bytes body 4; ok (from_le_bytes front, rest)

unfoldable pub read_u64 : List ℕ → Outcome (ℕ × List ℕ)
unfolding take_bytes
read_u64 body = do (front, rest) ← take_bytes body 8; ok (from_le_bytes front, rest)

unfoldable pub read_bytes : List ℕ → Outcome (List ℕ × List ℕ)
unfolding read_u32 take_bytes
read_bytes body = do (len, body') ← read_u32 body; take_bytes body' len

unfoldable pub decode_insert : List ℕ → Outcome (Primitive × List ℕ)
decode_insert body = do
  (tree_id, b1) ← read_u64 body
  (key, b2) ← read_bytes b1
  (value, b3) ← read_bytes b2
  ok (insert tree_id key value, b3)

unfoldable pub decode_erase : List ℕ → Outcome (Primitive × List ℕ)
decode_erase body = do
  (tree_id, b1) ← read_u64 body
  (key, b2) ← read_bytes b1
  ok (erase tree_id key, b2)

unfoldable pub decode_rename_object : List ℕ → Outcome (Primitive × List ℕ)
decode_rename_object body = do
  (tree_id, b1) ← read_u64 body
  (src_key, b2) ← read_bytes b1
  (dst_key, b3) ← read_bytes b2
  (force, b4) ← read_u8 b3
  ok (rename_object tree_id src_key dst_key (not (force == 0)), b4)

-- `decode_body_into` at every tag but `TY_BATCH`.
unfoldable pub decode_primitive : ℕ → List ℕ → Outcome (Primitive × List ℕ)
unfolding decode_insert decode_erase decode_rename_object
decode_primitive ty body =
    if ty == ty_insert
    then decode_insert body
    else if ty == ty_erase
    then decode_erase body
    else if ty == ty_rename_object
    then decode_rename_object body
    else err (sanity "unknown WalOp variant tag")

-- The loop of `decode_insert_run`, by the rounds left.
unfoldable pub run_items :
    ℕ → ℕ → ℕ → ℕ → List ℕ → List Primitive → Outcome (List Primitive × List ℕ)
run_items zero tree_id key_len value_len body ops = ok (ops, body)
run_items (suc rounds) tree_id key_len value_len body ops = do
  (key, b1) ← take_bytes body key_len
  (value, b2) ← take_bytes b1 value_len
  run_items rounds tree_id key_len value_len b2 (ops ++ (insert tree_id key value ∷ []))

unfoldable pub decode_insert_run : List ℕ → ℕ → List Primitive → Outcome (List Primitive × List ℕ)
unfolding run_items
decode_insert_run body batch_count ops = do
  (tree_id, b1) ← read_u64 body
  (count, b2) ← read_u32 b1
  if count == 0
      then err (sanity "empty BatchInsertRun is rejected")
      else if ltb batch_count (length ops + count)
      then err (sanity "BatchInsertRun exceeds batch inner count")
      else (do
        (key_len, b3) ← read_u32 b2
        (value_len, b4) ← read_u32 b3
        run_items count tree_id key_len value_len b4 ops)

-- One round of the batch loop: a run, or one operation.
unfoldable pub batch_step : ℕ → List Primitive → List ℕ → Outcome (List Primitive × List ℕ)
unfolding decode_insert_run decode_primitive
batch_step count ops body = do
  (inner_ty, b1) ← read_u8 body
  if inner_ty == ty_batch
      then err (sanity "nested Batch is rejected")
      else if inner_ty == ty_batch_insert_run
      then decode_insert_run b1 count ops
      else (do (inner, b2) ← decode_primitive inner_ty b1; ok (ops ++ (inner ∷ []), b2))

-- `while ops.len() < count`. Each round takes its tag byte, so the bytes bound the rounds.
unfoldable pub batch_loop : ℕ → ℕ → List Primitive → List ℕ → Outcome (List Primitive × List ℕ)
unfolding batch_step
batch_loop zero count ops body = if ltb (length ops) count then out_of_fuel else ok (ops, body)
batch_loop (suc fuel) count ops body =
    let more = batch_step count ops body >>= λ r. batch_loop fuel count r.0 r.1 in
    if ltb (length ops) count then more else ok (ops, body)

-- `Vec::with_capacity` of operations. The program ends when the allocator refuses.
unfoldable pub with_capacity : Platform → ℕ → Outcome (List Primitive)
with_capacity c count = if c.grants count then ok [] else panic

unfoldable pub decode_body_into : Platform → ℕ → List ℕ → Outcome (WalOp × List ℕ)
unfolding with_capacity batch_loop decode_primitive
decode_body_into c ty body =
    if ty == ty_batch
    then (do
      (batch_tree, b1) ← read_u64 body
      (count, b2) ← read_u32 b1
      ops ← with_capacity c count
      (ops', b3) ← batch_loop (length b2 + 1) count ops b2
      ok (batch ops', b3))
    else (do (p, rest) ← decode_primitive ty body; ok (primitive p, rest))

unfoldable pub decode_body : Platform → ℕ → List ℕ → Outcome WalOp
unfolding decode_body_into
decode_body c ty body = do
  (op, cursor) ← decode_body_into c ty body
  if length cursor == 0 then ok op else err (sanity "trailing bytes after variant body")

pub record DecodedRecord : Type 0 where
  pub op : WalOp
  pub seq : ℕ
  pub bytes_consumed : ℕ

-- The checks after the header: the whole record is there, and its checksum matches.
unfoldable pub decode_checked : Platform → List ℕ → ℕ → ℕ → ℕ → Outcome DecodedRecord
decode_checked c buf body_len seq ty =
    let body_end = record_header_size + body_len in
    let total = body_end + record_footer_size in
    if ltb (length buf) total
    then err (sanity "record body truncated")
    else if c.hash (take body_end buf) == from_le_bytes (slice body_end (body_end + 4) buf)
    then (do
      op ← decode_body c ty (slice record_header_size body_end buf)
      ok (record { op = op; seq = seq; bytes_consumed = total }))
    else err (sanity "record CRC mismatch")

unfoldable pub decode_record : Platform → List ℕ → Outcome DecodedRecord
unfolding decode_checked
decode_record c buf =
    if ltb (length buf) record_header_size
    then err (sanity "record header truncated")
    else if from_le_bytes (slice 0 4 buf) == record_magic
    then decode_checked c buf (from_le_bytes (slice 4 8 buf)) (from_le_bytes (slice 8 16 buf))
        (get_or buf 16 0)
    else err (sanity "record magic mismatch")

pub record FileHeader : Type 0 where
  pub tree_id : ℕ
  pub created_at : ℕ

unfoldable pub encode_file_header : FileHeader → List ℕ → List ℕ
encode_file_header h out =
    (((out ++ le_bytes 4 file_magic) ++ le_bytes 4 format_version) ++ le_bytes 8 h.tree_id)
    ++ le_bytes 8 h.created_at
    ++ le_bytes 8 0

unfoldable pub decode_file_header : List ℕ → Outcome FileHeader
decode_file_header buf =
    if ltb (length buf) file_header_size
    then err (sanity "WAL file header truncated")
    else if from_le_bytes (slice 0 4 buf) == file_magic
    then (if from_le_bytes (slice 4 8 buf) == format_version
        then ok (record {
          tree_id = from_le_bytes (slice 8 16 buf);
          created_at = from_le_bytes (slice 16 24 buf);
        })
        else err (sanity "WAL file format version unsupported"))
    else err (sanity "WAL file magic mismatch")
