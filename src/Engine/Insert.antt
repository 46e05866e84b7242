-- ===== src/Engine/Insert.antt =====
-- engine/walker/insert.rs: one insert in a blob, on the path of production, on which a crossing
-- into a child blob is handed to the caller. An error loses the state.
pub mod Forks
pub mod Sides
pub mod Partings
pub mod Steps
pub mod Splits
pub mod Prefixes
pub mod Answers
pub mod Parents
pub mod Keys
pub mod Zeros
pub mod Lookups
use artisan.Prelude.{
  ℕ, zero, suc, ◌+◌, ◌-◌, ◌≤◌, Bool, true, false, ◌&&◌, ◌||◌, not, Option, none, some, List, [],
  ◌∷◌, ltb, leb, ◌==◌, if◌then◌else◌, length, take, drop, get_elem?, get_or,
}
use artisan.Errors.{Error, not_yet_implemented, Outcome, ok, err, panic, out_of_fuel, ◌>>=◌}
use artisan.Engine.Allocator.{Allocator}
use artisan.Engine.Key.{
  SearchKey, key_len, remaining_len, byte_at, eq_slice, common_prefix_with_slice,
}
use artisan.Engine.Inner.{
  Inner, inner_find_child, inner_update_child, inner_add_child, corrupt, put_at,
}
use artisan.Engine.Tree.{
  Leaf, Node, empty_root, leaf, prefix, inner, blob_node, slot_of, prefix_max_inline,
  blob_max_inline,
}
use artisan.Engine.Writers.{
  leaf_extent_size, live, write_leaf, write_prefix_chain, write_node4_with,
}

pub data InsertCondition : Type 0 where
  always : InsertCondition
  if_absent : InsertCondition
  if_version : (expected : ℕ) → InsertCondition

abbrev pub is_version : InsertCondition → Bool
is_version always = false
is_version if_absent = false
is_version (if_version expected) = true

-- The allocator's space, and the header's count of tombstones.
pub record Blob (S : Type 0) : Type 0 where
  pub space : S
  pub tombstone_leaf_cnt : ℕ

abbrev pub in_space : {S : Type 0} → Blob S → S → Blob S
in_space b s = record { space = s; tombstone_leaf_cnt = b.tombstone_leaf_cnt }

-- The node that stands in the place of the old one, with `slot_after`; or the child blob.
pub data InsertStep : Type 0 where
  done : (after : Node) (mutated : Bool) → InsertStep
  crossing : (child_guid child_depth : ℕ) → InsertStep

abbrev pub unsupported : {A : Type 0} → Outcome A
unsupported = err (not_yet_implemented "engine::walker::insert")

-- The new leaf's tombstone is gone.
abbrev revived : {S : Type 0} → Leaf → Blob S → Blob S
revived l b =
    if l.tombstone
    then record { space = b.space; tombstone_leaf_cnt = b.tombstone_leaf_cnt - 1 }
    else b

-- Whether the condition lets a write of the leaf's own key pass.
abbrev pub permits : InsertCondition → Leaf → Bool
permits always l = true
permits if_absent l = l.tombstone
permits (if_version expected) l = not l.tombstone && l.seq == expected

module _ {S : Type 0} (a : Allocator S) (k : SearchKey) (value : List ℕ) (seq : ℕ)
    (condition : InsertCondition) where
  unfoldable pub insert_into_empty_root : ℕ → Blob S → Outcome (InsertStep × Blob S)
  insert_into_empty_root slot b =
      if is_version condition then ok (done (empty_root slot) false, b) else (do
        (new, s) ← write_leaf a k value seq b.space
        s' ← a.free_node slot s
        ok (done new true, in_space b s'))

  -- An extent that has room is written in place, with the offset it has.
  unfoldable pub update_leaf : ℕ → Leaf → Blob S → Outcome (InsertStep × Blob S)
  update_leaf slot l b =
      if not l.tombstone && length value == length l.value
        || leb (leaf_extent_size (key_len k) (length value))
            (leaf_extent_size (key_len k) (length l.value))
      then ok (done (leaf slot (live l.key_offset l.key value seq)) true, revived l b)
      else (do
        (new, s) ← write_leaf a k value seq b.space
        s' ← a.free_node slot s
        ok (done new true, revived l (in_space b s')))

  -- A fork between `existing` at its byte and a new leaf at the key's, below the bytes they share.
  unfoldable pub write_fork : List ℕ → ℕ → Node → ℕ → S → Outcome (Node × S)
  write_fork common byte_existing existing byte_new s = do
    (new, s1) ← write_leaf a k value seq s
    (n4, s2) ← write_node4_with a byte_existing existing byte_new new s1
    if length common == 0 then ok (n4, s2) else write_prefix_chain a common n4 s2

  -- `depth` beyond the stored key is a slice out of range.
  unfoldable pub split_leaf : ℕ → Leaf → ℕ → Blob S → Outcome (InsertStep × Blob S)
  split_leaf slot l depth b =
      if ltb (length l.key) depth
      then panic
      else let suffix = drop depth l.key in
        let common = common_prefix_with_slice k depth suffix in
        if common == length suffix || common == remaining_len k depth
        then unsupported
        else elim (byte_at k (depth + common)) [
          | none ↦ panic
          | some byte_new ↦ if is_version condition then ok (done (leaf slot l) false, b) else (do
            (n, s) ←
                write_fork (take common suffix) (get_or suffix common 0) (leaf slot l) byte_new
                  b.space
            ok (done n true, in_space b s))
        ]

  unfoldable pub insert_into_leaf : ℕ → Leaf → ℕ → Blob S → Outcome (InsertStep × Blob S)
  insert_into_leaf slot l depth b =
      if eq_slice k l.key
      then if permits condition l then update_leaf slot l b else ok (done (leaf slot l) false, b)
      else split_leaf slot l depth b

  -- A prefix that the key leaves: its tail stays above the child, and its slot is freed.
  unfoldable pub split_prefix : ℕ → List ℕ → Node → ℕ → ℕ → Blob S → Outcome (InsertStep × Blob S)
  split_prefix slot bytes child depth common b =
      if leb (key_len k) (depth + common) then unsupported else elim (byte_at k (depth + common)) [
        | none ↦ panic
        | some byte_new ↦
            if is_version condition then ok (done (prefix slot bytes child) false, b) else (do
              (existing, s1) ←
                  if length (drop (common + 1) bytes) == 0
                  then ok (child, b.space)
                  else write_prefix_chain a (drop (common + 1) bytes) child b.space
              (n, s2) ← write_fork (take common bytes) (get_or bytes common 0) existing byte_new s1
              s3 ← a.free_node slot s2
              ok (done n true, in_space b s3))
      ]

  -- A child that has moved is told to its parent.
  abbrev pub set_prefix_child : ℕ → List ℕ → Blob S → InsertStep → Outcome (InsertStep × Blob S)
  set_prefix_child slot bytes b (done child mutated) =
      ok (done (prefix slot bytes child) mutated, b)
  set_prefix_child slot bytes b (crossing guid depth) = ok (crossing guid depth, b)

  abbrev pub set_inner_child :
      ℕ → Inner → (ℕ → Node) → ℕ → ℕ → Blob S → InsertStep → Outcome (InsertStep × Blob S)
  set_inner_child slot n children byte child_slot b (done child mutated) =
      (if slot_of child == child_slot then ok n else inner_update_child n byte (slot_of child))
      >>= λ n'. ok (done (inner slot n' (put_at children byte child)) mutated, b)
  set_inner_child slot n children byte child_slot b (crossing guid depth) =
      ok (crossing guid depth, b)

  unfoldable pub add_leaf : ℕ → Inner → (ℕ → Node) → ℕ → Blob S → Outcome (InsertStep × Blob S)
  add_leaf slot n children byte b =
      if is_version condition then ok (done (inner slot n children) false, b) else (do
        (new, s) ← write_leaf a k value seq b.space
        ((slot', n'), s') ← inner_add_child a slot n byte (slot_of new) s
        ok (done (inner slot' n' (put_at children byte new)) true, in_space b s'))

  unfoldable pub blob_node_insert_step : ℕ → List ℕ → ℕ → ℕ → Blob S → Outcome (InsertStep × Blob S)
  blob_node_insert_step slot bytes guid depth b =
      let common = common_prefix_with_slice k depth bytes in
      if ltb blob_max_inline (length bytes)
      then corrupt
      else if common == length bytes
      then ok (crossing guid (depth + length bytes), b)
      else elim (byte_at k (depth + common)) [
        | none ↦ unsupported
        | some byte_new ↦
            if is_version condition then ok (done (blob_node slot bytes guid) false, b) else (do
              let tail = blob_node slot (drop (common + 1) bytes) guid
              (n, s) ← write_fork (take common bytes) (get_or bytes common 0) tail byte_new b.space
              ok (done n true, in_space b s))
      ]

  abbrev at_insert_byte :
      Option ℕ → (ℕ → Outcome (InsertStep × Blob S)) → Outcome (InsertStep × Blob S)
  at_insert_byte none f = unsupported
  at_insert_byte (some byte) f = f byte

  abbrev at_insert_child :
      Option ℕ
      → (ℕ → Outcome (InsertStep × Blob S))
      → Outcome (InsertStep × Blob S)
      → Outcome (InsertStep × Blob S)
  at_insert_child none f g = g
  at_insert_child (some child_slot) f g = f child_slot

  unfoldable pub insert_at_step : Node → ℕ → Blob S → Outcome (InsertStep × Blob S)
  insert_at_step (empty_root slot) depth b = insert_into_empty_root slot b
  insert_at_step (leaf slot l) depth b = insert_into_leaf slot l depth b
  insert_at_step (prefix slot bytes child) depth b =
      let below = insert_at_step child (depth + length bytes) b in
      let common = common_prefix_with_slice k depth bytes in
      if ltb prefix_max_inline (length bytes)
      then panic
      else if common == length bytes
      then below >>= (λ (r, b'). set_prefix_child slot bytes b' r)
      else split_prefix slot bytes child depth common b
  insert_at_step (inner slot n children) depth b = at_insert_byte (byte_at k depth) (λ byte.
      inner_find_child panic n byte >>= λ o.
      at_insert_child o
        (λ child_slot.
          insert_at_step (children byte) (depth + 1) b
          >>= (λ (r, b'). set_inner_child slot n children byte child_slot b' r))
        (add_leaf slot n children byte b))
  insert_at_step (blob_node slot bytes guid) depth b = blob_node_insert_step slot bytes guid depth b
