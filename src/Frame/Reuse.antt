-- ===== src/Frame/Reuse.antt =====
-- The free lists of store/blob_frame.rs give back the slot that was freed last.
use artisan.Prelude.{
  ℕ, ◌-◌, ◌*◌, ◌/◌, ◌%◌, ◌^◌, ◌≤◌, ◌<◌, ◌≡◌, ◌≢◌, refl, sym, ap, ◌∙◌, false, some, ◌==◌, arith,
}
use artisan.Errors.{ok}
use artisan.Layout.Node.{
  NodeType, invalid, leaf, prefix, blob, node4, node16, node48, node256, empty_root, size_of_node,
  as_u8, from_raw,
}
use artisan.Layout.Slot.{
  SlotEntry, raw, decode, next_free, live, freed, byte_offset, node_type, decode-raw-live,
  decode-raw,
}
use artisan.Frame.{
  BlobFrame, put, slot_entry, take_free, alloc_valid, alloc_node_inner, alloc_node, count_alloc,
  count_free, free_entry, free_node, set_free_list_head, write_slot_entry, add_gap_space,
}
use artisan.Frame.Bounds.{slot_entry-some, put_same}

-- The slot of a live node: the word of the table is that of the type and the offset.
abbrev pub IsLive : BlobFrame → ℕ → NodeType → ℕ → Type 0
IsLive f slot t off =
    (1 ≤ slot × slot ≤ f.header.num_slots)
    × ((f.table slot ≡ raw (live t off)) × (off < 2 ^ 20 × (off % 8 ≡ 0)))

-- The blob after a slot with the entry `e` went to the front of the free list of its type.
abbrev pushed : BlobFrame → ℕ → NodeType → SlotEntry → BlobFrame
pushed f slot t e = count_free t (
    set_free_list_head (as_u8 t - 1) slot
      (write_slot_entry slot (freed (f.header.free_list_head (as_u8 t - 1)) (byte_offset e)) f))

node_type-live : (t : NodeType) (off : ℕ) → node_type (live t off) ≡ some t
unfolding node_type from_raw
node_type-live invalid off = refl
node_type-live leaf off = refl
node_type-live prefix off = refl
node_type-live blob off = refl
node_type-live node4 off = refl
node_type-live node16 off = refl
node_type-live node48 off = refl
node_type-live node256 off = refl
node_type-live empty_root off = refl

free_entry_ok :
    (slot : ℕ) (e : SlotEntry) (t : NodeType) (f : BlobFrame)
    → t ≢ invalid
    → free_entry slot e (some t) f ≡ ok (pushed f slot t e)
unfolding free_entry
free_entry_ok slot e invalid f h = absurd (h refl)
free_entry_ok slot e leaf f h = refl
free_entry_ok slot e prefix f h = refl
free_entry_ok slot e blob f h = refl
free_entry_ok slot e node4 f h = refl
free_entry_ok slot e node16 f h = refl
free_entry_ok slot e node48 f h = refl
free_entry_ok slot e node256 f h = refl
free_entry_ok slot e empty_root f h = refl

alloc_node_inner_ok :
    (t : NodeType) (f : BlobFrame) → t ≢ invalid → alloc_node_inner t f ≡ alloc_valid t f
unfolding alloc_node_inner
alloc_node_inner_ok invalid f h = absurd (h refl)
alloc_node_inner_ok leaf f h = refl
alloc_node_inner_ok prefix f h = refl
alloc_node_inner_ok blob f h = refl
alloc_node_inner_ok node4 f h = refl
alloc_node_inner_ok node16 f h = refl
alloc_node_inner_ok node48 f h = refl
alloc_node_inner_ok node256 f h = refl
alloc_node_inner_ok empty_root f h = refl

free_node-live :
    (f : BlobFrame) (slot : ℕ) (t : NodeType) (off : ℕ)
    → t ≢ invalid
    → IsLive f slot t off
    → free_node slot f ≡ ok (pushed f slot t (live t off))
unfolding free_node
free_node-live f slot t off n ((h1, h2), (w, (lt, al))) =
    let e : slot_entry f slot ≡ some (live t off) =
      slot_entry-some f slot h1 h2 ∙ ap some (ap decode w ∙ decode-raw-live t off lt) in
    rw (e, free_node, node_type-live t off) (free_entry_ok slot (live t off) t f n)

-- The blob after its slot with the free entry `e`, the head of the list `i`, was made live.
abbrev taken : BlobFrame → ℕ → ℕ → NodeType → SlotEntry → BlobFrame
taken f i slot t e =
    add_gap_space (size_of_node t)
      (write_slot_entry slot (live t (byte_offset e)) (set_free_list_head i (next_free e) f))

take_free-head :
    (f : BlobFrame) (i : ℕ) (t : NodeType) (slot : ℕ) (e : SlotEntry)
    → f.header.free_list_head i ≡ slot
    → slot_entry f slot ≡ some e
    → take_free i t f ≡ ok (slot, taken f i slot t e)
unfolding take_free
take_free-head f i t slot e h s = rw (take_free, h, s) (ap (λ n. ok (n, taken f i n t e)) h)

alloc_valid-head :
    (f : BlobFrame) (t : NodeType) (slot : ℕ) (e : SlotEntry)
    → f.header.free_list_head (as_u8 t - 1) ≡ slot
    → 1 ≤ slot
    → slot_entry f slot ≡ some e
    → alloc_valid t f ≡ ok (slot, taken f (as_u8 t - 1) slot t e)
unfolding alloc_valid
alloc_valid-head f t slot e h k s =
    let z : (slot == 0) ≡ false = ground arith in
    rw (h, z) (take_free-head f (as_u8 t - 1) t slot e h s)

alloc_node-head :
    (f : BlobFrame) (t : NodeType) (slot : ℕ) (e : SlotEntry)
    → t ≢ invalid
    → f.header.free_list_head (as_u8 t - 1) ≡ slot
    → 1 ≤ slot
    → slot_entry f slot ≡ some e
    → alloc_node t f ≡ ok (slot, count_alloc t (taken f (as_u8 t - 1) slot t e))
unfolding alloc_node
alloc_node-head f t slot e n h k s =
    rw (alloc_node_inner_ok t f n, alloc_valid-head f t slot e h k s) refl

slot_entry-pushed :
    (f : BlobFrame) (slot : ℕ) (t : NodeType) (off : ℕ)
    → IsLive f slot t off
    → f.header.free_list_head (as_u8 t - 1) < 2 ^ 15
    → slot_entry (pushed f slot t (live t off)) slot
      ≡ some (freed (f.header.free_list_head (as_u8 t - 1)) off)
slot_entry-pushed f slot t off ((h1, h2), (w, (lt, al))) k =
    let g = pushed f slot t (live t off) in
    let o : off / 8 * 8 ≡ off = omega arith in
    slot_entry-some g slot h1 h2
    ∙ ap some (
        ap decode (put_same f.table slot _)
        ∙ decode-raw (freed (f.header.free_list_head (as_u8 t - 1)) (off / 8 * 8)) k (omega arith)
        ∙ ap (freed (f.header.free_list_head (as_u8 t - 1))) o)

put-put : (f : ℕ → ℕ) (i v w j : ℕ) → w ≡ f i → put (put f i v) i w j ≡ f j
put-put f i v w j h = ground arith

-- Freeing a live node and allocating one of its type gives its slot and its body back: the slot
-- table, the free lists, the number of slots and the end of the data area are as before.
pub alloc_node-free_node :
    (f : BlobFrame) (slot : ℕ) (t : NodeType) (off : ℕ)
    → t ≢ invalid
    → IsLive f slot t off
    → f.header.free_list_head (as_u8 t - 1) < 2 ^ 15
    → (g : BlobFrame) × ((h : BlobFrame) × ((free_node slot f ≡ ok g)
          × ((alloc_node t g ≡ ok (slot, h))
              × (((s : ℕ) → h.table s ≡ f.table s)
                  × (((i : ℕ) → h.header.free_list_head i ≡ f.header.free_list_head i)
                      × ((h.header.num_slots ≡ f.header.num_slots)
                          × (h.header.space_used ≡ f.header.space_used)))))))
alloc_node-free_node f slot t off n l k =
    let ((h1, h2), (w, (lt, al))) = l in
    let g = pushed f slot t (live t off) in
    let o : off / 8 * 8 ≡ off = omega arith in
    let word : raw (live t (off / 8 * 8)) ≡ f.table slot = ap (λ n. raw (live t n)) o ∙ sym w in
    (
      g,
      (
        _,
        (
          free_node-live f slot t off n l,
          (
            alloc_node-head g t slot _ n (put_same f.header.free_list_head (as_u8 t - 1) slot) h1
                (slot_entry-pushed f slot t off l k),
            (
              (λ s. put-put f.table slot _ _ s word),
              ((λ i. put-put f.header.free_list_head (as_u8 t - 1) slot _ i refl), (refl, refl)),
            ),
          ),
        ),
      ),
    )
