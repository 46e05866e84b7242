-- ===== src/Frame.antt =====
-- store/blob_frame.rs: the node allocator of one blob. The buffer is its header and its slot table,
-- one 32-bit word for each slot; the bodies are not modelled, and are only handed out.
-- Every error is returned before the first write, so that an error leaves the buffer as it was.
pub mod Bounds
pub mod Operations
pub mod Runs
pub mod Reuse
use artisan.Prelude.{
  ℕ, zero, suc, ◌+◌, ◌-◌, ◌*◌, ◌/◌, ◌%◌, ◌^◌, ◌≤◌, ◌<◌, min, Bool, true, false, Option, none, some,
  ltb, leb, ◌==◌, ◌||◌, List, [], ◌∷◌, if◌then◌else◌,
}
use artisan.Errors.{
  AllocError, out_of_slots, out_of_space, invalid_request, FreeError, invalid_slot, type_mismatch,
  alloc, free, Outcome, ok, err, panic, out_of_fuel, ◌>>=◌,
}
use artisan.Layout.Node.{
  NodeType, invalid, leaf, prefix, blob, node4, node16, node48, node256, empty_root, as_u8,
  size_of_node, page_size, header_size, max_slots, slot_table_size, data_area_start,
}
use artisan.Layout.Slot.{SlotEntry, live, freed, byte_offset, node_type, next_free, raw, decode}

abbrev pub spillover_reservation : ℕ
spillover_reservation = 128

pub record BlobHeader : Type 0 where
  pub blob_guid : ℕ
  pub num_slots : ℕ
  pub root_slot : ℕ
  pub space_used : ℕ
  pub num_ext_blobs : ℕ
  pub gap_space : ℕ
  pub free_list_head : ℕ → ℕ

-- `table slot` is the word at `HEADER_SIZE + (slot - 1) * 4`.
pub record BlobFrame : Type 0 where
  pub header : BlobHeader
  pub table : ℕ → ℕ

abbrev pub put : (ℕ → ℕ) → ℕ → ℕ → ℕ → ℕ
put f i v j = if j == i then v else f j

unfoldable pub slot_entry : BlobFrame → ℕ → Option SlotEntry
slot_entry f slot =
    if (slot == 0) || ltb f.header.num_slots slot then none else some (decode (f.table slot))

abbrev pub write_slot_entry : ℕ → SlotEntry → BlobFrame → BlobFrame
write_slot_entry slot e f = record f { table = put f.table slot (raw e) }

abbrev pub set_free_list_head : ℕ → ℕ → BlobFrame → BlobFrame
set_free_list_head i slot f = record f {
  header = record (f.header) { free_list_head = put f.header.free_list_head i slot };
}

abbrev pub add_gap_space : ℕ → BlobFrame → BlobFrame
add_gap_space size f = record f {
  header = record (f.header) { gap_space = (f.header.gap_space + size) % 2 ^ 32 };
}

-- `(offset, size)` of a slot's body
unfoldable pub body_of_slot : BlobFrame → ℕ → Option (ℕ × ℕ)
body_of_slot f slot = elim (slot_entry f slot) [
  | none ↦ none
  | some e ↦ elim (node_type e) [
    | none ↦ none
    | some invalid ↦ none
    | some t ↦
        if ltb page_size (byte_offset e + size_of_node t)
        then none
        else some (byte_offset e, size_of_node t)
  ]
]

-- The two reuses: the head of the list `i` becomes a live slot of type `ntype`.
unfoldable pub take_free : ℕ → NodeType → BlobFrame → Outcome (ℕ × BlobFrame)
take_free i ntype f =
    let head = f.header.free_list_head i in
    elim (slot_entry f head) [
      | none ↦ err (alloc invalid_request)
      | some e ↦ ok (
        head,
        add_gap_space (size_of_node ntype) (
            write_slot_entry head (live ntype (byte_offset e))
              (set_free_list_head i (next_free e) f)),
      )
    ]

abbrev pub available : NodeType → BlobFrame → ℕ
available blob f = page_size - f.header.space_used
available ntype f = page_size - f.header.space_used - spillover_reservation

unfoldable pub bump : NodeType → BlobFrame → Outcome (ℕ × BlobFrame)
bump ntype f =
    let size = size_of_node ntype in
    let new_slot = f.header.num_slots + 1 in
    if leb max_slots f.header.num_slots
    then err (alloc out_of_slots)
    else if ltb (available ntype f) size
    then err (alloc (out_of_space size (available ntype f)))
    else ok (
      new_slot,
      record {
        header = record (f.header) {
          num_slots = new_slot;
          space_used = f.header.space_used + size;
          gap_space = (f.header.gap_space + size) % 2 ^ 32;
        };
        table = put f.table new_slot (raw (live ntype f.header.space_used));
      },
    )

abbrev pub sibling : NodeType → Option ℕ
sibling blob = some (as_u8 prefix - 1)
sibling prefix = some (as_u8 blob - 1)
sibling ntype = none

unfoldable pub alloc_sibling : NodeType → BlobFrame → Outcome (ℕ × BlobFrame)
alloc_sibling ntype f = elim (sibling ntype) [
  | none ↦ bump ntype f
  | some i ↦ if f.header.free_list_head i == 0 then bump ntype f else take_free i ntype f
]

unfoldable pub alloc_valid : NodeType → BlobFrame → Outcome (ℕ × BlobFrame)
alloc_valid ntype f =
    let i = as_u8 ntype - 1 in
    if f.header.free_list_head i == 0 then alloc_sibling ntype f else take_free i ntype f

unfoldable pub alloc_node_inner : NodeType → BlobFrame → Outcome (ℕ × BlobFrame)
alloc_node_inner invalid f = err (alloc invalid_request)
alloc_node_inner ntype f = alloc_valid ntype f

abbrev pub more_blobs : NodeType → ℕ → ℕ
more_blobs blob n = min (n + 1) 65535
more_blobs ntype n = n

abbrev pub fewer_blobs : NodeType → ℕ → ℕ
fewer_blobs blob n = n - 1
fewer_blobs ntype n = n

abbrev pub count_alloc : NodeType → BlobFrame → BlobFrame
count_alloc ntype f = record f {
  header = record (f.header) { num_ext_blobs = more_blobs ntype f.header.num_ext_blobs };
}

abbrev pub count_free : NodeType → BlobFrame → BlobFrame
count_free ntype f = record f {
  header = record (f.header) { num_ext_blobs = fewer_blobs ntype f.header.num_ext_blobs };
}

unfoldable pub alloc_node : NodeType → BlobFrame → Outcome (ℕ × BlobFrame)
alloc_node ntype f = do (slot, g) ← alloc_node_inner ntype f; ok (slot, count_alloc ntype g)

-- `free_node_inner` reads the entry once more, and gives the same two errors.
unfoldable pub free_entry : ℕ → SlotEntry → Option NodeType → BlobFrame → Outcome BlobFrame
free_entry slot e none f = err (free (type_mismatch slot e.ntype_or_next_free))
free_entry slot e (some invalid) f = err (free (type_mismatch slot e.ntype_or_next_free))
free_entry slot e (some t) f =
    let i = as_u8 t - 1 in
    ok (
      count_free t (
        set_free_list_head i slot
          (write_slot_entry slot (freed (f.header.free_list_head i) (byte_offset e)) f)))

unfoldable pub free_node : ℕ → BlobFrame → Outcome BlobFrame
free_node slot f = elim (slot_entry f slot) [
  | none ↦ err (free (invalid_slot slot))
  | some e ↦ free_entry slot e (node_type e) f
]

-- `(size + 7) & !7`, which wraps
abbrev pub align8 : ℕ → ℕ
align8 size = (size + 7) % 2 ^ 32 / 8 * 8

unfoldable pub alloc_extent : ℕ → BlobFrame → Outcome (ℕ × BlobFrame)
alloc_extent size f =
    let avail = page_size - f.header.space_used - spillover_reservation in
    if size == 0
    then err (alloc invalid_request)
    else if ltb avail (align8 size)
    then err (alloc (out_of_space (align8 size) avail))
    else ok (
      f.header.space_used,
      record f { header = record (f.header) { space_used = f.header.space_used + align8 size } },
    )

abbrev pub zeroed : ℕ → BlobFrame
zeroed guid = record {
  header = record {
    blob_guid = guid;
    num_slots = 0;
    root_slot = 0;
    space_used = data_area_start;
    num_ext_blobs = 0;
    gap_space = 0;
    free_list_head = λ i. 0;
  };
  table = λ slot. 0;
}

unfoldable pub init : ℕ → Outcome BlobFrame
init guid = do
  (slot, f) ← alloc_node empty_root (zeroed guid)
  ok (record f { header = record (f.header) { root_slot = slot } })

-- One call, as the walkers make them: an error leaves the blob alone.
pub data Call : Type 0 where
  alloc_node_call : NodeType → Call
  alloc_extent_call : ℕ → Call
  free_node_call : ℕ → Call

abbrev pub kept : BlobFrame → Outcome (ℕ × BlobFrame) → BlobFrame
kept f (ok (slot, g)) = g
kept f o = f

unfoldable pub after : BlobFrame → Call → BlobFrame
after f (alloc_node_call t) = kept f (alloc_node t f)
after f (alloc_extent_call size) = kept f (alloc_extent size f)
after f (free_node_call slot) = elim (free_node slot f) [ ok g ↦ g | o ↦ f ]

abbrev pub run_calls : BlobFrame → List Call → BlobFrame
run_calls f [] = f
run_calls f (c ∷ cs) = run_calls (after f c) cs
