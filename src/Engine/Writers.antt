-- ===== src/Engine/Writers.antt =====
-- engine/walker/writers.rs: new leaves, prefix chains and forks, in the space of a blob. The callers
-- have bounded the key and the value by 65,535 bytes. The allocators hand out space inside the page,
-- so that the checks of a slot's or an extent's range, which cannot fail, are left out.
pub mod Finds
use artisan.Prelude.{
  ℕ, zero, suc, ◌+◌, ◌-◌, ◌*◌, ◌/◌, ◌%◌, ◌^◌, Bool, true, false, List, [], ◌∷◌, ◌==◌, if◌then◌else◌,
  length, take, drop, min,
}
use artisan.Errors.{Outcome, ok, err, panic, out_of_fuel, ◌>>=◌}
use artisan.Layout.Node.{NodeType, node4}
use artisan.Engine.Allocator.{Allocator}
use artisan.Engine.Key.{SearchKey, key_len, padded}
use artisan.Engine.Inner.{Inner, cells4, insert_sorted, put_at}
use artisan.Engine.Tree.{Leaf, Node, leaf, prefix, inner, slot_of, prefix_max_inline}

-- `leaf_extent_size`
unfoldable pub leaf_extent_size : ℕ → ℕ → ℕ
leaf_extent_size key_len value_len = ((2 + key_len + value_len) % 2 ^ 32 + 7) % 2 ^ 32 / 8 * 8

-- `Leaf::live`
abbrev pub live : ℕ → List ℕ → List ℕ → ℕ → Leaf
live key_offset key value seq = record {
  key_offset = key_offset;
  key = key;
  value = value;
  seq = seq;
  tombstone = false;
}

module _ {S : Type 0} (a : Allocator S) where
  unfoldable pub write_leaf : SearchKey → List ℕ → ℕ → S → Outcome (Node × S)
  write_leaf k value seq s = do
    (ext, s1) ← a.alloc_extent (leaf_extent_size (key_len k) (length value)) s
    (slot, s2) ← a.alloc_node NodeType.leaf s1
    ok (leaf slot (live ext (padded k) value seq), s2)

  -- The chunks are written from the last; each round takes a byte at least. There are bytes when it
  -- is called.
  unfoldable pub prefix_chain : ℕ → List ℕ → Node → S → Outcome (Node × S)
  prefix_chain zero bytes child s = out_of_fuel
  prefix_chain (suc fuel) [] child s = ok (child, s)
  prefix_chain (suc fuel) (b ∷ bytes) child s =
      let start = length (b ∷ bytes) - min (length (b ∷ bytes)) prefix_max_inline in
      a.alloc_node NodeType.prefix s >>= λ (slot, s').
      prefix_chain fuel (take start (b ∷ bytes)) (prefix slot (drop start (b ∷ bytes)) child) s'

  unfoldable pub write_prefix_chain : List ℕ → Node → S → Outcome (Node × S)
  write_prefix_chain bytes child s = prefix_chain (length bytes + 1) bytes child s

  -- `write_node4_with` of two children.
  unfoldable pub write_node4_with : ℕ → Node → ℕ → Node → S → Outcome (Node × S)
  write_node4_with b1 n1 b2 n2 s = do
    (slot, s') ← a.alloc_node node4 s
    let cells = insert_sorted b2 (slot_of n2) (insert_sorted b1 (slot_of n1) [])
    ok (inner slot (cells4 cells) (put_at (λ b. n2) b1 n1), s')
