-- ===== src/Engine/Migrate/Images.antt =====
-- engine/walker/migrate.rs: a blob of its own for a subtree, and the compaction of a blob.
use artisan.Prelude.{
  ℕ, ◌+◌, ◌-◌, ◌^◌, Bool, true, false, ◌&&◌, ◌||◌, not, Option, none, some, ◌==◌, if◌then◌else◌,
  min,
}
use artisan.Errors.{Outcome, ok, panic, ◌>>=◌}
use artisan.Layout.Node.{NodeType}
use artisan.Frame.{BlobFrame, init}
use artisan.Engine.Allocator.Framed.{frame_allocator}
use artisan.Engine.Tree.{Node, empty_root, slot_of}
use artisan.Engine.Migrate.{clone_subtree}

-- A blob: its frame, with the root slot in the header, its tree, and the two counts of the header
-- that the walkers and the compaction keep.
pub record Image : Type 0 where
  pub frame : BlobFrame
  pub root : Node
  pub tombstone_leaf_cnt : ℕ
  pub compact_times : ℕ

-- The sentinel that `init` has left at slot 1 is given back, and the root is named.
unfoldable pub seal_root : Node → BlobFrame → Outcome BlobFrame
seal_root n f =
    (if (f.header.root_slot == 1) && not (slot_of n == 1)
      then frame_allocator.free_node 1 f
      else ok f)
    >>= λ f'. ok (record f' { header = record (f'.header) { root_slot = slot_of n } })

-- `make_blob_from_node_with_buf`; a fresh header counts no tombstones.
unfoldable pub make_blob_from_node : Node → ℕ → Outcome Image
make_blob_from_node t new_guid = init new_guid >>= λ f.
    clone_subtree frame_allocator false t f >>= λ (o, f1). elim o [
      | none ↦ panic
      | some n ↦ seal_root n f1 >>= λ f2.
          ok (record { frame = f2; root = n; tombstone_leaf_cnt = 0; compact_times = 0 })
    ]

unfoldable pub blob_needs_compaction : Image → Bool
blob_needs_compaction i =
    not (i.tombstone_leaf_cnt == 0) || not (i.frame.header.free_list_head 0 == 0)

-- The entry of the compacted blob.
unfoldable pub entry_of : Option Node → BlobFrame → Outcome (Node × BlobFrame)
entry_of (some n) f = ok (n, f)
entry_of none f = do
  (slot, f') ← frame_allocator.alloc_node NodeType.empty_root f
  ok (empty_root slot, f')

unfoldable pub compact_blob : Image → Outcome Image
compact_blob i = do
  f ← init i.frame.header.blob_guid
  (o, f1) ← clone_subtree frame_allocator true i.root f
  (n, f2) ← entry_of o f1
  f3 ← seal_root n f2
  ok (record {
    frame = f3;
    root = n;
    tombstone_leaf_cnt = 0;
    compact_times = min (i.compact_times + 1) (2 ^ 32 - 1);
  })
