-- ===== src/Engine/Merge.antt =====
-- engine/walker/merge.rs, with `is_mergeable` and `merge_blob` of migrate.rs: child blobs are folded
-- back into their parent. The manager's `pin` is a parameter, which answers as before the pass: the
-- pass only marks blobs to be deleted, and those are the ones that it has already read.
pub mod Kept
pub mod Pairs
pub mod Passes
pub mod Lookups
use artisan.Prelude.{
  ℕ, zero, suc, ◌+◌, ◌-◌, ◌%◌, ◌^◌, Bool, true, false, ◌&&◌, not, Option, none, some, List, [], ◌∷◌,
  ltb, leb, ◌==◌, if◌then◌else◌, length, take, get_or,
}
use artisan.Errors.{Outcome, ok, err, panic, out_of_fuel, ◌>>=◌}
use artisan.Layout.Node.{page_size, max_slots, data_area_start}
use artisan.Frame.{BlobFrame}
use artisan.Engine.Allocator.{Allocator}
use artisan.Engine.Allocator.Framed.{frame_allocator}
use artisan.Engine.Inner.{
  Cell, Inner, cells4, cells16, table48, table256, inner_update_child, put_at, corrupt,
}
use artisan.Engine.Tree.{Node, empty_root, leaf, prefix, inner, blob_node, slot_of, blob_max_inline}
use artisan.Engine.Writers.{write_prefix_chain}
use artisan.Engine.Migrate.{clone_subtree, expect, check_48}
use artisan.Engine.Migrate.Images.{Image}

-- `MERGE_RESERVE`
abbrev merge_reserve : ℕ
merge_reserve = 4096

-- The parent's space, the counts of `MergeStats`, and the blobs that were handed to
-- `mark_for_delete`, each with its sequence number, the last first.
pub record Pass : Type 0 where
  pub frame : BlobFrame
  pub merged : ℕ
  pub inspected : ℕ
  pub marked : List (ℕ × ℕ)

unfoldable pub is_mergeable : BlobFrame → Image → Bool
is_mergeable parent child =
    leb (child.frame.header.space_used - data_area_start)
      (page_size - parent.header.space_used - merge_reserve)
    && leb (parent.header.num_slots + child.frame.header.num_slots) max_slots
    && (child.frame.header.num_ext_blobs == 0)
    && (child.tombstone_leaf_cnt == 0)

-- The copy, below the inline bytes of the BlobNode.
unfoldable pub inline_root : List ℕ → Option Node → BlobFrame → Outcome (Node × BlobFrame)
inline_root bytes none f = panic
inline_root [] (some n) f = ok (n, f)
inline_root (b ∷ bytes) (some n) f = write_prefix_chain frame_allocator (b ∷ bytes) n f

-- `merge_blob` of a child that is pinned; the result stands where the BlobNode stood.
unfoldable pub merge_blob : ℕ → List ℕ → Image → BlobFrame → Outcome (Node × BlobFrame)
merge_blob slot bytes child f = do
  (o, f1) ← clone_subtree frame_allocator false child.root f
  (root, f2) ← inline_root (take blob_max_inline bytes) o f1
  f3 ← frame_allocator.free_node slot f2
  ok (root, f3)

-- The bytes of an inner node and the slots of their children, as they are read before the walk.
unfoldable pub pairs_48 : (ℕ → ℕ) → List ℕ → ℕ → ℕ → Outcome (List Cell)
pairs_48 index places zero b = ok []
pairs_48 index places (suc n) b =
    let rest = pairs_48 index places n (b + 1) in
    check_48 index b >>= λ there.
    if there then (rest >>= λ cells. ok ((b, get_or places (index b - 1) 0) ∷ cells)) else rest

unfoldable pub pairs_256 : (ℕ → ℕ) → ℕ → ℕ → List Cell
pairs_256 child zero b = []
pairs_256 child (suc n) b =
    let rest = pairs_256 child n (b + 1) in if child b == 0 then rest else (b, child b) ∷ rest

unfoldable pub pairs_of : Inner → Outcome (List Cell)
pairs_of (cells4 cells) = ok cells
pairs_of (cells16 cells) = ok cells
pairs_of (table48 count index places) = pairs_48 index places 256 0
pairs_of (table256 count child) = ok (pairs_256 child 256 0)

-- Each child that has moved is told to the inner node.
abbrev pub merge_pairs :
    (ℕ → Pass → Outcome (Node × Pass))
    → List Cell
    → Inner
    → (ℕ → Node)
    → Pass
    → Outcome ((Inner × (ℕ → Node)) × Pass)
merge_pairs f [] n children p = ok ((n, children), p)
merge_pairs f ((b, c) ∷ cells) n children p = do
  (x, p1) ← f b p
  n' ← if slot_of x == c then ok n else inner_update_child n b (slot_of x)
  merge_pairs f cells n' (put_at children b x) p1

module _ (pin : ℕ → Outcome Image) (seq : ℕ) where
  unfoldable pub merge_at_blob_node : ℕ → List ℕ → ℕ → Pass → Outcome (Node × Pass)
  merge_at_blob_node slot bytes guid p = if ltb blob_max_inline (length bytes) then corrupt else (do
    child ← pin guid
    let p1 = record p { inspected = p.inspected + 1 }
    if not (is_mergeable p.frame child) then ok (blob_node slot bytes guid, p1) else (do
      (n, f) ← merge_blob slot bytes child p.frame
      ok (n, record p1 { frame = f; merged = p.merged + 1; marked = (guid, seq) ∷ p.marked })))

  unfoldable pub try_merge_subtree : Node → Pass → Outcome (Node × Pass)
  try_merge_subtree (empty_root slot) p = ok (empty_root slot, p)
  try_merge_subtree (leaf slot l) p = ok (leaf slot l, p)
  try_merge_subtree (prefix slot bytes child) p = do
    (n, p') ← try_merge_subtree child p
    ok (prefix slot bytes n, p')
  try_merge_subtree (inner slot n children) p = pairs_of n >>= λ cells.
      merge_pairs (λ b p'. try_merge_subtree (children b) p') cells n children p
      >>= λ ((n', children'), p'). ok (inner slot n' children', p')
  try_merge_subtree (blob_node slot bytes guid) p = merge_at_blob_node slot bytes guid p

  -- The new root is named in the header.
  unfoldable pub try_merge_children : Image → Outcome (Image × Pass)
  try_merge_children i =
      try_merge_subtree i.root (record { frame = i.frame; merged = 0; inspected = 0; marked = [] })
      >>= λ (n, p).
          let f = record (p.frame) { header = record (p.frame.header) { root_slot = slot_of n } } in
          ok (record i { frame = f; root = n }, record p { frame = f })
