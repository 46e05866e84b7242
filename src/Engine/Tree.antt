-- ===== src/Engine/Tree.antt =====
-- The tree of one blob, and its lookup: engine/walker/lookup.rs, layout/{leaf,prefix,blob_node}.rs.
-- A node stands with its slot in the place where its parent holds that slot, and an inner node
-- holds the node of each byte beside its table of slots. The code writes a body in place, or in a
-- new slot that the parent is told.
pub mod Finds
pub mod Keyed
pub mod Crossings
use artisan.Prelude.{ℕ, ◌+◌, Bool, Option, none, some, List, ltb, not, if◌then◌else◌, length}
use artisan.Errors.{Outcome, ok, err, panic, out_of_fuel, ◌>>=◌}
use artisan.Engine.Key.{SearchKey, byte_at, eq_slice, range_eq}
use artisan.Engine.Inner.{Inner, inner_find_child, corrupt}

-- A leaf with its extent: the key as it is stored, and the value.
pub record Leaf : Type 0 where
  pub key_offset : ℕ
  pub key : List ℕ
  pub value : List ℕ
  pub seq : ℕ
  pub tombstone : Bool

pub data Node : Type 0 where
  empty_root : (slot : ℕ) → Node
  leaf : (slot : ℕ) → Leaf → Node
  prefix : (slot : ℕ) (bytes : List ℕ) (child : Node) → Node
  inner : (slot : ℕ) → Inner → (ℕ → Node) → Node
  blob_node : (slot : ℕ) (bytes : List ℕ) (child_blob_guid : ℕ) → Node

abbrev pub slot_of : Node → ℕ
slot_of (empty_root slot) = slot
slot_of (leaf slot l) = slot
slot_of (prefix slot bytes child) = slot
slot_of (inner slot n children) = slot
slot_of (blob_node slot bytes guid) = slot

pub data LookupResult : Type 0 where
  not_found : LookupResult
  found : (value : List ℕ) (seq : ℕ) → LookupResult
  crossing : (child_guid child_depth : ℕ) → LookupResult

-- `PREFIX_MAX_INLINE`, `BLOB_MAX_INLINE`
abbrev pub prefix_max_inline : ℕ
prefix_max_inline = 112

abbrev pub blob_max_inline : ℕ
blob_max_inline = 104

abbrev leaf_check : Leaf → SearchKey → LookupResult
leaf_check l k =
    if l.tombstone
    then not_found
    else if not (eq_slice k l.key)
    then not_found
    else found l.value l.seq

abbrev blob_descend : List ℕ → ℕ → SearchKey → ℕ → Outcome LookupResult
blob_descend bytes guid k depth =
    if ltb blob_max_inline (length bytes)
    then corrupt
    else if not (range_eq k depth bytes)
    then ok not_found
    else ok (crossing guid (depth + length bytes))

-- Without a byte, or a child at it, the key is not there.
abbrev pub at_byte : Option ℕ → (ℕ → Outcome LookupResult) → Outcome LookupResult
at_byte none f = ok not_found
at_byte (some byte) f = f byte

abbrev pub at_child : Outcome LookupResult → Option ℕ → Outcome LookupResult
at_child r none = ok not_found
at_child r (some child) = r

unfoldable pub descend : Node → SearchKey → ℕ → Outcome LookupResult
descend (empty_root slot) k depth = ok not_found
descend (leaf slot l) k depth = ok (leaf_check l k)
descend (prefix slot bytes child) k depth =
    if ltb prefix_max_inline (length bytes)
    then corrupt
    else if not (range_eq k depth bytes)
    then ok not_found
    else descend child k (depth + length bytes)
descend (inner slot n children) k depth =
    at_byte (byte_at k depth)
      (λ byte. inner_find_child corrupt n byte >>= at_child (descend (children byte) k (depth + 1)))
descend (blob_node slot bytes guid) k depth = blob_descend bytes guid k depth
