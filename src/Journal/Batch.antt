-- ===== src/Journal/Batch.antt =====
-- `BatchEncoder` of journal/codec.rs: a batch record is written piece by piece into the buffer.
-- The `debug_assert`s are compiled out, as in a release build; `assert_eq` and `expect` panic.
pub mod Calls
pub mod RoundTrip
use artisan.Prelude.{
  ℕ, ◌+◌, ◌-◌, ◌%◌, ◌^◌, Bool, true, false, List, [], ◌∷◌, ◌++◌, ◌==◌, if◌then◌else◌, length, take,
  replicate, slice, copy_at,
}
use artisan.Prelude.Bytes.{le_bytes}
use artisan.Errors.{Outcome, ok, panic, ◌>>=◌, to_u32}
use artisan.Journal.Record.{
  Platform, record_magic, ty_insert, ty_erase, ty_rename_object, ty_batch, ty_batch_insert_run,
}
use artisan.Journal.Encode.{write_bytes, bool_byte}

pub record BatchEncoder : Type 0 where
  pub out : List ℕ
  pub start : ℕ
  pub len_pos : ℕ
  pub body_start : ℕ
  pub count_pos : ℕ
  pub inner_count : ℕ
  pub finished : Bool

unfoldable pub begin : List ℕ → ℕ → ℕ → BatchEncoder
begin out seq tree_id =
    let with_magic = out ++ le_bytes 4 record_magic in
    let with_len = with_magic ++ replicate 4 0 in
    let with_ty = (with_len ++ le_bytes 8 seq) ++ (ty_batch ∷ []) in
    let with_tree = with_ty ++ le_bytes 8 tree_id in
    record {
      out = with_tree ++ replicate 4 0;
      start = length out;
      len_pos = length with_magic;
      body_start = length with_ty;
      count_pos = length with_tree;
      inner_count = 0;
      finished = false;
    }

-- `self.inner_count += n` on a u32.
abbrev pub counted : BatchEncoder → List ℕ → ℕ → BatchEncoder
counted e out n = record e { out = out; inner_count = (e.inner_count + n) % 2 ^ 32 }

unfoldable pub push_insert : BatchEncoder → ℕ → List ℕ → List ℕ → Outcome BatchEncoder
unfolding write_bytes
push_insert e tree_id key value = do
  with_key ← write_bytes ((e.out ++ (ty_insert ∷ [])) ++ le_bytes 8 tree_id) key
  with_value ← write_bytes with_key value
  ok (counted e with_value 1)

-- The loop over the items of a run; the second result counts them.
unfoldable pub push_items : List ℕ → ℕ → List (List ℕ × List ℕ) → List ℕ × ℕ
push_items out actual [] = (out, actual)
push_items out actual ((key, value) ∷ items) = push_items ((out ++ key) ++ value) (actual + 1) items

-- `iter.next().expect(…)`
abbrev pub first_item : List (List ℕ × List ℕ) → Outcome (List ℕ × List ℕ)
first_item [] = panic
first_item (item ∷ items) = ok item

unfoldable pub push_insert_run :
    BatchEncoder → ℕ → ℕ → ℕ → ℕ → List (List ℕ × List ℕ) → Outcome BatchEncoder
unfolding push_items push_insert
push_insert_run e tree_id count key_len value_len items =
    if count == 1
    then (do (key, value) ← first_item items; push_insert e tree_id key value)
    else (do
      count_u32 ← to_u32 count
      key_len_u32 ← to_u32 key_len
      value_len_u32 ← to_u32 value_len
      let with_tree = (e.out ++ (ty_batch_insert_run ∷ [])) ++ le_bytes 8 tree_id
      let with_count = with_tree ++ le_bytes 4 count_u32
      let with_lens = (with_count ++ le_bytes 4 key_len_u32) ++ le_bytes 4 value_len_u32
      let (out, actual) = push_items with_lens 0 items
      if actual == count then ok (counted e out count_u32) else panic)

unfoldable pub push_erase : BatchEncoder → ℕ → List ℕ → Outcome BatchEncoder
unfolding write_bytes
push_erase e tree_id key = do
  with_key ← write_bytes ((e.out ++ (ty_erase ∷ [])) ++ le_bytes 8 tree_id) key
  ok (counted e with_key 1)

unfoldable pub push_rename_object : BatchEncoder → ℕ → List ℕ → List ℕ → Bool → Outcome BatchEncoder
unfolding write_bytes
push_rename_object e tree_id src dst force = do
  with_src ← write_bytes ((e.out ++ (ty_rename_object ∷ [])) ++ le_bytes 8 tree_id) src
  with_dst ← write_bytes with_src dst
  ok (counted e (with_dst ++ (bool_byte force ∷ [])) 1)

-- Patches the count and the length in, and appends the checksum; returns the count.
unfoldable pub finish : Platform → BatchEncoder → Outcome (BatchEncoder × ℕ)
finish c e = do
  let body_end = length e.out
  body_len ← to_u32 (body_end - e.body_start)
  let with_count = copy_at e.count_pos (le_bytes 4 e.inner_count) e.out
  let patched = copy_at e.len_pos (le_bytes 4 body_len) with_count
  let crc = c.hash (slice e.start body_end patched)
  ok (record e { out = patched ++ le_bytes 4 crc; finished = true }, e.inner_count)

-- `Drop`: what the buffer holds when the encoder is gone.
unfoldable pub drop_encoder : BatchEncoder → List ℕ
drop_encoder e = if e.finished then e.out else take e.start e.out
