-- ===== src/Layout/Slot.antt =====
-- layout/slot.rs: an entry of the slot table in 32 bits.
use artisan.Prelude.{ℕ, ◌+◌, ◌*◌, ◌/◌, ◌%◌, ◌^◌, ◌≡◌, ◌<◌, arith, Option, some, ap, ◌∙◌}
use artisan.Layout.Node.{NodeType, from_raw, as_u8, from_raw-as_u8}

pub record SlotEntry : Type 0 where
  pub offset_div8 : ℕ
  pub ntype_or_next_free : ℕ

abbrev pub live : NodeType → ℕ → SlotEntry
live ntype byte_offset = record { offset_div8 = byte_offset / 8; ntype_or_next_free = as_u8 ntype }

abbrev pub freed : ℕ → ℕ → SlotEntry
freed next_free_slot byte_offset = record {
  offset_div8 = byte_offset / 8;
  ntype_or_next_free = next_free_slot;
}

abbrev pub byte_offset : SlotEntry → ℕ
byte_offset e = e.offset_div8 * 8

-- The tag is cut to a u8 before it is looked up.
unfoldable pub node_type : SlotEntry → Option NodeType
node_type e = from_raw (e.ntype_or_next_free % 256)

abbrev pub next_free : SlotEntry → ℕ
next_free e = e.ntype_or_next_free

-- `tag << 17 | offset`: an offset below 2^17 shares no bit with the tag, so the `|` is a sum.
unfoldable pub raw : SlotEntry → ℕ
raw e = e.ntype_or_next_free * 2 ^ 17 % 2 ^ 32 + e.offset_div8

unfoldable pub decode : ℕ → SlotEntry
decode r = record { offset_div8 = r % 2 ^ 17; ntype_or_next_free = r / 2 ^ 17 % 2 ^ 16 }

-- An entry whose tag has 15 bits and whose offset lies in a blob is read back as it was stored.
pub decode-raw :
    (e : SlotEntry) → e.ntype_or_next_free < 2 ^ 15 → e.offset_div8 < 2 ^ 17 → decode (raw e) ≡ e
unfolding decode raw
decode-raw e h k = ground arith

pub decode-raw-live :
    (t : NodeType) (off : ℕ) → off < 2 ^ 20 → decode (raw (live t off)) ≡ live t off
decode-raw-live t off h = decode-raw (live t off) (ground arith) (omega arith)

-- The low byte of a next-free index decides: an index whose low byte is that of a node type reads as
-- a live entry of that type, also where the index itself is far above the range of types.
pub node_type-freed :
    (t : NodeType) (k off : ℕ) → node_type (freed (256 * k + as_u8 t) off) ≡ some t
unfolding node_type
node_type-freed t k off = ap from_raw (low t) ∙ from_raw-as_u8 t
  where
    low : (t : NodeType) → (256 * k + as_u8 t) % 256 ≡ as_u8 t
    low t = ground arith
