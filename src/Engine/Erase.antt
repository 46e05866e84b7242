-- ===== src/Engine/Erase.antt =====
-- engine/walker/erase.rs and the shrinking half of writers.rs: one erase in a blob, on the path of
-- production, on which a crossing is handed to the caller.
pub mod Tombstones
pub mod Kept
pub mod Lookups
use artisan.Prelude.{
  ℕ, zero, suc, ◌+◌, ◌-◌, ◌%◌, ◌^◌, Bool, true, false, ◌&&◌, not, Option, none, some, List, [], ◌∷◌,
  ◌++◌, ltb, leb, ◌==◌, if◌then◌else◌, length, get_or, set, min,
}
use artisan.Errors.{Outcome, ok, err, panic, out_of_fuel, ◌>>=◌}
use artisan.Layout.Node.{node4, node16, node48}
use artisan.Engine.Allocator.{Allocator}
use artisan.Engine.Key.{SearchKey, byte_at, eq_slice, range_eq}
use artisan.Engine.Inner.{
  Cell, Inner, cells4, cells16, table48, table256, inner_find_child, inner_update_child, corrupt,
  put_at, regrow, index_cells, children_48,
}
use artisan.Engine.Tree.{
  Leaf, Node, empty_root, leaf, prefix, inner, blob_node, slot_of, prefix_max_inline,
  blob_max_inline,
}
use artisan.Engine.Writers.{write_prefix_chain}
use artisan.Engine.Insert.{Blob, in_space}

pub data EraseCondition : Type 0 where
  always : EraseCondition
  if_version : (expected : ℕ) → EraseCondition

-- What the parent is told, with the node that now stands in the place.
pub data EraseSignal : Type 0 where
  unchanged : (here : Node) → EraseSignal
  subtree_gone : EraseSignal
  replaced : (new : Node) → EraseSignal

pub data EraseStep : Type 0 where
  done : (signal : EraseSignal) (mutated : Bool) → EraseStep
  crossing : (child_guid child_depth : ℕ) → EraseStep

-- The condition of an erase of a live leaf.
abbrev pub allows : EraseCondition → ℕ → Bool
allows always seq = true
allows (if_version expected) seq = seq == expected

abbrev bury : Leaf → Leaf
bury l = record {
  key_offset = l.key_offset;
  key = l.key;
  value = l.value;
  seq = l.seq;
  tombstone = true;
}

abbrev remove_cell : ℕ → List Cell → Outcome (List Cell)
remove_cell byte [] = corrupt
remove_cell byte ((k, c) ∷ cells) =
    let rest = remove_cell byte cells in
    if k == byte then ok cells else (rest >>= λ cs. ok ((k, c) ∷ cs))

-- The bytes below `n` with a child, ascending: `find_next_nonzero_byte`, `find_next_nonzero_u32`.
abbrev cells_below : ℕ → (ℕ → ℕ) → (ℕ → ℕ) → List Cell
cells_below zero index child = []
cells_below (suc n) index child =
    cells_below n index child ++ (if index n == 0 then [] else (n, child n) ∷ [])

-- `SHRINK_NODE16_TO_NODE4_AT`, `SHRINK_NODE48_TO_NODE16_AT`, `SHRINK_NODE256_TO_NODE48_AT`
abbrev shrink_16_at : ℕ
shrink_16_at = 3

abbrev shrink_48_at : ℕ
shrink_48_at = 12

abbrev shrink_256_at : ℕ
shrink_256_at = 37

module _ {S : Type 0} (a : Allocator S) where
  -- The only child is left behind a prefix of its byte.
  unfoldable pub collapse_lone : ℕ → List Cell → (ℕ → Node) → S → Outcome (EraseSignal × S)
  collapse_lone slot [] children s = corrupt
  collapse_lone slot ((k, c) ∷ cells) children s = do
    s1 ← a.free_node slot s
    (new, s2) ← write_prefix_chain a (k ∷ []) (children k) s1
    ok (replaced new, s2)

  unfoldable pub finish_inner_with_sorted :
      ℕ → Inner → List Cell → (ℕ → Node) → S → Outcome (EraseSignal × S)
  finish_inner_with_sorted slot n cells children s =
      if length cells == 0
      then (do s' ← a.free_node slot s; ok (subtree_gone, s'))
      else if length cells == 1
      then collapse_lone slot cells children s
      else ok (unchanged (inner slot n children), s)

  unfoldable pub collapse_48 : ℕ → ℕ → (ℕ → ℕ) → List ℕ → (ℕ → Node) → S → Outcome (EraseSignal × S)
  collapse_48 slot count index places children s =
      let cells = cells_below 256 index (λ b. get_or places (index b - 1) 0) in
      if count == 0
      then (do s' ← a.free_node slot s; ok (subtree_gone, s'))
      else if count == 1
      then collapse_lone slot cells children s
      else if leb count shrink_48_at
      then if ltb 16 (length cells) then panic else (do
        (new, s') ← regrow a node16 slot s
        ok (replaced (inner new (cells16 cells) children), s'))
      else ok (unchanged (inner slot (table48 count index places) children), s)

  unfoldable pub collapse_256 : ℕ → ℕ → (ℕ → ℕ) → (ℕ → Node) → S → Outcome (EraseSignal × S)
  collapse_256 slot count child children s =
      let cells = cells_below 256 child child in
      if count == 0
      then (do s' ← a.free_node slot s; ok (subtree_gone, s'))
      else if count == 1
      then collapse_lone slot cells children s
      else if leb count shrink_256_at
      then if ltb 48 (length cells) then panic else (do
        (new, s') ← regrow a node48 slot s
        ok (
          replaced (
              inner new (table48 count (index_cells 0 cells (λ b. 0)) (children_48 cells))
                children),
          s',
        ))
      else ok (unchanged (inner slot (table256 count child) children), s)

  unfoldable pub inner_remove_child_and_collapse :
      ℕ → Inner → (ℕ → Node) → ℕ → S → Outcome (EraseSignal × S)
  inner_remove_child_and_collapse slot (cells4 cells) children byte s =
      remove_cell byte cells >>= λ cs. finish_inner_with_sorted slot (cells4 cs) cs children s
  inner_remove_child_and_collapse slot (cells16 cells) children byte s =
      remove_cell byte cells >>= λ cs.
      if leb 2 (length cs) && leb (length cs) shrink_16_at
      then (do
        (new, s') ← regrow a node4 slot s
        ok (replaced (inner new (cells4 cs) children), s'))
      else finish_inner_with_sorted slot (cells16 cs) cs children s
  inner_remove_child_and_collapse slot (table48 count index places) children byte s =
      if index byte == 0
      then corrupt
      else if ltb 48 (index byte)
      then panic
      else collapse_48 slot ((count + 255) % 256) (put_at index byte 0)
          (set places (index byte - 1) 0) children s
  inner_remove_child_and_collapse slot (table256 count child) children byte s =
      if child byte == 0
      then corrupt
      else collapse_256 slot (count - 1) (put_at child byte 0) children s

module _ {S : Type 0} (a : Allocator S) (k : SearchKey) (condition : EraseCondition) where
  unfoldable pub erase_at_leaf : ℕ → Leaf → Blob S → Outcome (EraseStep × Blob S)
  erase_at_leaf slot l b =
      if not (eq_slice k l.key)
      then ok (done (unchanged (leaf slot l)) false, b)
      else if l.tombstone
      then ok (done (unchanged (leaf slot l)) false, b)
      else if not (allows condition l.seq)
      then ok (done (unchanged (leaf slot l)) false, b)
      else let counted = min (b.tombstone_leaf_cnt + 1) (2 ^ 32 - 1) in
        ok (
          done (unchanged (leaf slot (bury l))) true,
          record { space = b.space; tombstone_leaf_cnt = counted },
        )

  -- What a Prefix does with the signal of its child.
  abbrev pub pass_prefix : ℕ → List ℕ → Blob S → EraseStep → Outcome (EraseStep × Blob S)
  pass_prefix slot bytes b (done (unchanged here) m) =
      ok (done (unchanged (prefix slot bytes here)) m, b)
  pass_prefix slot bytes b (done (replaced new) m) =
      ok (done (unchanged (prefix slot bytes new)) m, b)
  pass_prefix slot bytes b (done subtree_gone m) = do
    s ← a.free_node slot b.space
    ok (done subtree_gone m, in_space b s)
  pass_prefix slot bytes b (crossing guid depth) = ok (crossing guid depth, b)

  -- What an inner node does with the signal of the child at the byte.
  abbrev pub pass_inner :
      ℕ → Inner → (ℕ → Node) → ℕ → Blob S → EraseStep → Outcome (EraseStep × Blob S)
  pass_inner slot n children byte b (done (unchanged here) m) =
      ok (done (unchanged (inner slot n (put_at children byte here))) m, b)
  pass_inner slot n children byte b (done (replaced new) m) = do
    n' ← inner_update_child n byte (slot_of new)
    ok (done (unchanged (inner slot n' (put_at children byte new))) m, b)
  pass_inner slot n children byte b (done subtree_gone m) = do
    (signal, s) ← inner_remove_child_and_collapse a slot n children byte b.space
    ok (done signal m, in_space b s)
  pass_inner slot n children byte b (crossing guid depth) = ok (crossing guid depth, b)

  -- Without a byte, or a child at it, nothing is there to erase.
  abbrev at_erase_byte :
      Node → Blob S → Option ℕ → (ℕ → Outcome (EraseStep × Blob S)) → Outcome (EraseStep × Blob S)
  at_erase_byte t b none f = ok (done (unchanged t) false, b)
  at_erase_byte t b (some byte) f = f byte

  unfoldable pub erase_at_step : Node → ℕ → Blob S → Outcome (EraseStep × Blob S)
  erase_at_step (empty_root slot) depth b = ok (done (unchanged (empty_root slot)) false, b)
  erase_at_step (leaf slot l) depth b = erase_at_leaf slot l b
  erase_at_step (prefix slot bytes child) depth b =
      let below = erase_at_step child (depth + length bytes) b in
      if ltb prefix_max_inline (length bytes)
      then panic
      else if not (range_eq k depth bytes)
      then ok (done (unchanged (prefix slot bytes child)) false, b)
      else (below >>= λ (r, b'). pass_prefix slot bytes b' r)
  erase_at_step (inner slot n children) depth b =
      at_erase_byte (inner slot n children) b (byte_at k depth) (λ byte.
        inner_find_child panic n byte >>= λ o. at_erase_byte (inner slot n children) b o (λ c.
          erase_at_step (children byte) (depth + 1) b >>= λ (r, b').
          pass_inner slot n children byte b' r))
  erase_at_step (blob_node slot bytes guid) depth b =
      if ltb blob_max_inline (length bytes)
      then corrupt
      else if not (range_eq k depth bytes)
      then ok (done (unchanged (blob_node slot bytes guid)) false, b)
      else ok (crossing guid (depth + length bytes), b)
