-- ===== src/Journal/Encode.antt =====
-- The encoders of journal/codec.rs. A buffer is the list of its bytes; `reserve` changes no content.
pub mod Appends
pub mod Direct
use artisan.Prelude.{
  ℕ, ◌+◌, ◌-◌, Bool, true, false, List, [], ◌∷◌, ◌++◌, length, replicate, slice, copy_at,
}
use artisan.Prelude.Bytes.{le_bytes}
use artisan.Errors.{Outcome, ok, ◌>>=◌, to_u32}
use artisan.Journal.Record.{
  Platform, Primitive, insert, erase, rename_object, WalOp, primitive, batch, record_magic,
  record_header_size, record_footer_size, ty_insert, ty_erase, ty_rename_object, ty_batch,
}

-- A length-prefixed byte string.
unfoldable pub write_bytes : List ℕ → List ℕ → Outcome (List ℕ)
write_bytes out b = do len ← to_u32 (length b); ok ((out ++ le_bytes 4 len) ++ b)

-- `u8::from(force)`
abbrev pub bool_byte : Bool → ℕ
bool_byte true = 1
bool_byte false = 0

-- The header with a zero length, the body, the length patched in, the checksum of all of it.
unfoldable pub write_record :
    Platform → List ℕ → ℕ → ℕ → (List ℕ → Outcome (List ℕ)) → Outcome (List ℕ)
write_record c out seq ty write_body = do
  let start = length out
  let with_magic = out ++ le_bytes 4 record_magic
  let len_pos = length with_magic
  let with_len = with_magic ++ replicate 4 0
  let with_seq = with_len ++ le_bytes 8 seq
  let with_ty = with_seq ++ (ty ∷ [])
  let body_start = length with_ty
  written ← write_body with_ty
  let body_end = length written
  body_len ← to_u32 (body_end - body_start)
  let patched = copy_at len_pos (le_bytes 4 body_len) written
  ok (patched ++ le_bytes 4 (c.hash (slice start body_end patched)))

unfoldable pub insert_body : ℕ → List ℕ → List ℕ → List ℕ → Outcome (List ℕ)
unfolding write_bytes
insert_body tree_id key value buf = do
  with_key ← write_bytes (buf ++ le_bytes 8 tree_id) key
  write_bytes with_key value

unfoldable pub erase_body : ℕ → List ℕ → List ℕ → Outcome (List ℕ)
unfolding write_bytes
erase_body tree_id key buf = write_bytes (buf ++ le_bytes 8 tree_id) key

unfoldable pub rename_object_body : ℕ → List ℕ → List ℕ → Bool → List ℕ → Outcome (List ℕ)
unfolding write_bytes
rename_object_body tree_id src_key dst_key force buf = do
  with_src ← write_bytes (buf ++ le_bytes 8 tree_id) src_key
  with_dst ← write_bytes with_src dst_key
  ok (with_dst ++ (bool_byte force ∷ []))

module _ (c : Platform) where
  unfoldable pub encode_insert_record : List ℕ → ℕ → ℕ → List ℕ → List ℕ → Outcome (List ℕ)
  encode_insert_record out seq tree_id key value =
      write_record c out seq ty_insert (insert_body tree_id key value)

  unfoldable pub encode_erase_record : List ℕ → ℕ → ℕ → List ℕ → Outcome (List ℕ)
  encode_erase_record out seq tree_id key = write_record c out seq ty_erase (erase_body tree_id key)

  unfoldable pub encode_rename_object_record :
      List ℕ → ℕ → ℕ → List ℕ → List ℕ → Bool → Outcome (List ℕ)
  encode_rename_object_record out seq tree_id src_key dst_key force =
      write_record c out seq ty_rename_object (rename_object_body tree_id src_key dst_key force)

-- The capacity that the encoders reserve.
abbrev pub encoded_insert_record_len : ℕ → ℕ → ℕ
encoded_insert_record_len key_len value_len =
    record_header_size + 8 + 4 + key_len + 4 + value_len + record_footer_size

abbrev pub encoded_erase_record_len : ℕ → ℕ
encoded_erase_record_len key_len = record_header_size + 8 + 4 + key_len + record_footer_size

abbrev pub encoded_rename_object_record_len : ℕ → ℕ → ℕ
encoded_rename_object_record_len src_key_len dst_key_len =
    record_header_size + 8 + 4 + src_key_len + 4 + dst_key_len + 1 + record_footer_size

-- `variant_tag`, of an inner operation and of any operation.
unfoldable pub primitive_tag : Primitive → ℕ
primitive_tag (insert t k v) = ty_insert
primitive_tag (erase t k) = ty_erase
primitive_tag (rename_object t s d f) = ty_rename_object

unfoldable pub variant_tag : WalOp → ℕ
unfolding primitive_tag
variant_tag (primitive p) = primitive_tag p
variant_tag (batch ops) = ty_batch

-- `encode_body`
unfoldable pub primitive_body : Primitive → List ℕ → Outcome (List ℕ)
unfolding insert_body erase_body rename_object_body
primitive_body (insert t k v) = insert_body t k v
primitive_body (erase t k) = erase_body t k
primitive_body (rename_object t s d f) = rename_object_body t s d f

unfoldable pub inner_bodies : List Primitive → List ℕ → Outcome (List ℕ)
unfolding primitive_tag
inner_bodies [] out = ok out
inner_bodies (p ∷ ps) out = primitive_body p (out ++ (primitive_tag p ∷ [])) >>= inner_bodies ps

unfoldable pub encode_body : WalOp → List ℕ → Outcome (List ℕ)
unfolding inner_bodies
encode_body (primitive p) out = primitive_body p out
encode_body (batch ops) out = do
  count ← to_u32 (length ops)
  inner_bodies ops ((out ++ le_bytes 8 0) ++ le_bytes 4 count)

unfoldable pub encode_record : Platform → WalOp → ℕ → List ℕ → Outcome (List ℕ)
encode_record c op seq out = write_record c out seq (variant_tag op) (encode_body op)
