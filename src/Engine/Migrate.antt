-- ===== src/Engine/Migrate.antt =====
-- engine/walker/migrate.rs: the copy of a tree into the space of another blob, whole or without its
-- tombstones, and what is built on it: a blob of its own for a subtree, and the compaction of a blob.
-- The checks of a slot's or an extent's range, which cannot fail for a tree, are left out.
pub mod Holds
pub mod Doms
pub mod Images
pub mod Copied
pub mod Survivors
pub mod Packs
pub mod Places
pub mod Copies
pub mod Nodes
pub mod Clones
pub mod Compacts
pub mod Runs
use artisan.Prelude.{
  ℕ, zero, suc, ◌+◌, ◌-◌, ◌%◌, ◌^◌, Bool, true, false, ◌&&◌, ◌||◌, not, Option, none, some, List,
  [], ◌∷◌, ltb, leb, ◌==◌, if◌then◌else◌, length, take, map, min,
}
use artisan.Errors.{Outcome, ok, err, panic, out_of_fuel, ◌>>=◌}
use artisan.Layout.Node.{NodeType, node4, node16, node48, node256}
use artisan.Frame.{BlobFrame, init}
use artisan.Engine.Allocator.{Allocator}
use artisan.Engine.Allocator.Framed.{frame_allocator}
use artisan.Engine.Inner.{
  Cell, Inner, cells4, cells16, table48, table256, corrupt, index_cells, children_48, find_byte,
}
use artisan.Engine.Tree.{
  Leaf, Node, empty_root, leaf, prefix, inner, blob_node, slot_of, prefix_max_inline,
  blob_max_inline,
}
use artisan.Engine.Writers.{leaf_extent_size, live, write_prefix_chain}

-- The copies of the children, each with its byte.
abbrev pub Survivors : Type 0
Survivors = List (ℕ × Node)

abbrev pub slots : Survivors → List Cell
slots ss = map (λ (b, n). (b, slot_of n)) ss

abbrev pub at : Survivors → ℕ → Option Node
at [] b = none
at ((k, n) ∷ ss) b = if k == b then some n else at ss b

-- The node of a byte; a byte that has no copy leads to no node.
abbrev pub node_at : Survivors → ℕ → Node
node_at [] b = empty_root 0
node_at ((k, n) ∷ ss) b = if k == b then n else node_at ss b

abbrev pub child_or_zero : Option ℕ → ℕ
child_or_zero none = 0
child_or_zero (some c) = c

abbrev pub survive : ℕ → Option Node → Survivors → Survivors
survive b none ss = ss
survive b (some n) ss = (b, n) ∷ ss

-- `expect("preserve mode never returns None")`
abbrev pub expect : {S : Type 0} → Option Node × S → Outcome (Option Node × S)
expect (none, s) = panic
expect (some n, s) = ok (some n, s)

-- The byte below `n` that leads to a place.
unfoldable pub byte_of_place : (ℕ → ℕ) → ℕ → ℕ → Option ℕ
byte_of_place index place zero = none
byte_of_place index place (suc n) = if index n == place then some n else byte_of_place index place n

-- Whether a byte of a Node48 has a child.
abbrev pub check_48 : (ℕ → ℕ) → ℕ → Outcome Bool
check_48 index b =
    if index b == 0 then ok false else if leb 48 (index b - 1) then corrupt else ok true

module _ {S : Type 0} (a : Allocator S) where
  unfoldable pub clone_leaf : Bool → Leaf → S → Outcome (Option Node × S)
  clone_leaf filter l s = if filter && l.tombstone then ok (none, s) else (do
    (ext, s1) ← a.alloc_extent (leaf_extent_size (length l.key) (length l.value)) s
    (slot, s2) ← a.alloc_node NodeType.leaf s1
    ok (
      some (
          leaf slot
            (if filter then live ext l.key l.value l.seq else record l { key_offset = ext })),
      s2,
    ))

  unfoldable pub pack_inner_node : Survivors → S → Outcome (Option Node × S)
  pack_inner_node [] s = ok (none, s)
  pack_inner_node ((b, child) ∷ []) s = do
    (n, s') ← write_prefix_chain a (b ∷ []) child s
    ok (some n, s')
  pack_inner_node (x ∷ y ∷ rest) s =
      let ss = x ∷ y ∷ rest in
      if leb (length ss) 4
      then (do
        (slot, s') ← a.alloc_node node4 s
        ok (some (inner slot (cells4 (slots ss)) (node_at ss)), s'))
      else if leb (length ss) 16
      then (do
        (slot, s') ← a.alloc_node node16 s
        ok (some (inner slot (cells16 (slots ss)) (node_at ss)), s'))
      else if leb (length ss) 48
      then (do
        (slot, s') ← a.alloc_node node48 s
        ok (
          some (
              inner slot
                (table48 (length ss) (index_cells 0 (slots ss) (λ b. 0)) (children_48 (slots ss)))
                (node_at ss)),
          s',
        ))
      else (do
        (slot, s') ← a.alloc_node node256 s
        ok (
          some (
              inner slot (table256 (length ss % 256) (λ b. child_or_zero (find_byte b (slots ss))))
                (node_at ss)),
          s',
        ))

module _ {S : Type 0} (f : ℕ → S → Outcome (Option Node × S)) where
  -- The children of a Node4 or Node16, in their order.
  abbrev pub clone_cells : List Cell → S → Outcome (Survivors × S)
  clone_cells [] s = ok ([], s)
  clone_cells ((k, c) ∷ cells) s = do
    (o, s1) ← f k s
    (ss, s2) ← clone_cells cells s1
    ok (survive k o ss, s2)

  -- The children of `n` bytes from `b` on.
  unfoldable pub clone_bytes : (ℕ → Outcome Bool) → ℕ → ℕ → S → Outcome (Survivors × S)
  clone_bytes check zero b s = ok ([], s)
  clone_bytes check (suc n) b s =
      let rest = clone_bytes check n (b + 1) in
      check b >>= λ there.
      if there then (do (o, s1) ← f b s; (ss, s2) ← rest s1; ok (survive b o ss, s2)) else rest s

  -- The children of a Node48 by their places from `i` on. A place with a child that no byte leads
  -- to has no node in the model of the tree, and is taken to be corrupt.
  abbrev pub clone_places : (ℕ → ℕ) → ℕ → List ℕ → S → Outcome ((List ℕ × Survivors) × S)
  clone_places index i [] s = ok (([], []), s)
  clone_places index i (c ∷ cs) s =
      let rest = clone_places index (i + 1) cs in
      if c == 0
      then (do ((ps, ss), s') ← rest s; ok ((0 ∷ ps, ss), s'))
      else elim (byte_of_place index (i + 1) 256) [
        | none ↦ corrupt
        | some b ↦ f b s >>= λ (o, s1). elim o [
          | none ↦ panic
          | some n ↦ rest s1 >>= λ ((ps, ss), s2). ok ((slot_of n ∷ ps, (b, n) ∷ ss), s2)
        ]
      ]

-- `clone_subtree`; without the filter every child has a copy.
module _ {S : Type 0} (a : Allocator S) (filter : Bool) where
  abbrev pub child_clone : Outcome (Option Node × S) → Outcome (Option Node × S)
  child_clone m = if filter then m else m >>= expect

  unfoldable pub clone_inner :
      Inner → (ℕ → S → Outcome (Option Node × S)) → S → Outcome (Option Node × S)
  clone_inner (cells4 cells) f s = do
    (ss, s1) ← clone_cells f cells s
    if filter then pack_inner_node a ss s1 else (do
      (slot, s2) ← a.alloc_node node4 s1
      ok (some (inner slot (cells4 (slots ss)) (node_at ss)), s2))
  clone_inner (cells16 cells) f s = do
    (ss, s1) ← clone_cells f cells s
    if filter then pack_inner_node a ss s1 else (do
      (slot, s2) ← a.alloc_node node16 s1
      ok (some (inner slot (cells16 (slots ss)) (node_at ss)), s2))
  clone_inner (table48 count index children) f s =
      if filter
      then (do (ss, s1) ← clone_bytes f (check_48 index) 256 0 s; pack_inner_node a ss s1)
      else (do
        ((places, ss), s1) ← clone_places f index 0 children s
        (slot, s2) ← a.alloc_node node48 s1
        ok (some (inner slot (table48 count index places) (node_at ss)), s2))
  clone_inner (table256 count children) f s = do
    (ss, s1) ← clone_bytes f (λ b. ok (not (children b == 0))) 256 0 s
    if filter then pack_inner_node a ss s1 else (do
      (slot, s2) ← a.alloc_node node256 s1
      ok (
        some (
            inner slot (table256 count (λ b. child_or_zero (find_byte b (slots ss)))) (node_at ss)),
        s2,
      ))

  unfoldable pub clone_subtree : Node → S → Outcome (Option Node × S)
  clone_subtree (empty_root slot) s = do
    (out, s') ← a.alloc_node NodeType.empty_root s
    ok (some (empty_root out), s')
  clone_subtree (leaf slot l) s = clone_leaf a filter l s
  clone_subtree (prefix slot bytes child) s = clone_subtree child s >>= λ (o, s1). elim o [
    | none ↦ ok (none, s1)
    | some n ↦ a.alloc_node NodeType.prefix s1 >>= λ (out, s2).
        ok (some (prefix out (take prefix_max_inline bytes) n), s2)
  ]
  clone_subtree (inner slot n children) s =
      clone_inner n (λ b s. child_clone (clone_subtree (children b) s)) s
  clone_subtree (blob_node slot bytes guid) s = do
    (out, s') ← a.alloc_node NodeType.blob s
    ok (some (blob_node out (take blob_max_inline bytes) guid), s')
