-- ===== src/Engine/Allocator/Framed.antt =====
-- The blob frame is an allocator for the walkers.
use artisan.Prelude.{ℕ, ◌+◌, ◌≤◌, Option, none, some, ◌==◌, arith, if◌then◌else◌, inl, inr}
use artisan.Errors.{Returns, returned, refused, Returns-if, Returns-bind}
use artisan.Layout.Node.{
  NodeType, invalid, leaf, prefix, blob, node4, node16, node48, node256, empty_root,
}
use artisan.Layout.Slot.{decode}
use artisan.Frame.{
  BlobFrame, take_free, bump, sibling, alloc_sibling, alloc_valid, alloc_node_inner, alloc_node,
  free_entry, free_node, alloc_extent,
}
use artisan.Frame.Bounds.{slot_entry-cases}
use artisan.Engine.Allocator.{IsRefusal, no_alloc, no_free, Allocator}

abbrev Slot : ℕ × BlobFrame → Type 0
Slot r = 1 ≤ r.0

new_slot : (n : ℕ) → 1 ≤ n + 1
new_slot n = omega arith

module _ (f : BlobFrame) where
  take_free-Slot : (i : ℕ) (t : NodeType) → Returns Slot IsRefusal (take_free i t f)
  unfolding take_free
  take_free-Slot i t = elim (slot_entry-cases f (f.header.free_list_head i)) [
    | inl e ↦ rw (e, take_free) (refused (no_alloc _))
    | inr (p, q, e) ↦ rw (e, take_free) (returned p)
  ]

  bump-Slot : (t : NodeType) → Returns Slot IsRefusal (bump t f)
  unfolding bump
  bump-Slot t = search (Returns-if, refused, returned, no_alloc, new_slot)

  alloc_sibling-Slot : (t : NodeType) → Returns Slot IsRefusal (alloc_sibling t f)
  unfolding alloc_sibling
  alloc_sibling-Slot t =
      elim (sibling t)
        as (λ o. Returns Slot IsRefusal (elim o [
          | none ↦ bump t f
          | some i ↦ if f.header.free_list_head i == 0 then bump t f else take_free i t f
        ])) [ none ↦ bump-Slot t | some i ↦ search (Returns-if, bump-Slot, take_free-Slot) ]

  alloc_valid-Slot : (t : NodeType) → Returns Slot IsRefusal (alloc_valid t f)
  unfolding alloc_valid
  alloc_valid-Slot t = search (Returns-if, alloc_sibling-Slot, take_free-Slot)

  alloc_node_inner-Slot : (t : NodeType) → Returns Slot IsRefusal (alloc_node_inner t f)
  unfolding alloc_node_inner
  alloc_node_inner-Slot invalid = refused (no_alloc _)
  alloc_node_inner-Slot leaf = alloc_valid-Slot leaf
  alloc_node_inner-Slot prefix = alloc_valid-Slot prefix
  alloc_node_inner-Slot blob = alloc_valid-Slot blob
  alloc_node_inner-Slot node4 = alloc_valid-Slot node4
  alloc_node_inner-Slot node16 = alloc_valid-Slot node16
  alloc_node_inner-Slot node48 = alloc_valid-Slot node48
  alloc_node_inner-Slot node256 = alloc_valid-Slot node256
  alloc_node_inner-Slot empty_root = alloc_valid-Slot empty_root

  pub alloc_node-Slot : (t : NodeType) → Returns Slot IsRefusal (alloc_node t f)
  unfolding alloc_node
  alloc_node-Slot t = Returns-bind (alloc_node_inner-Slot t) (λ (slot, g) h. returned h)

  pub alloc_extent-IsRefusal :
      (size : ℕ) → Returns (λ (r : ℕ × BlobFrame). Unit {0}) IsRefusal (alloc_extent size f)
  unfolding alloc_extent
  alloc_extent-IsRefusal size = search (Returns-if, refused, returned, no_alloc)

  free_entry-IsRefusal :
      (slot : ℕ) (o : Option NodeType)
      → Returns
          (λ (g : BlobFrame). Unit {0})
          IsRefusal
          (free_entry slot (decode (f.table slot)) o f)
  unfolding free_entry
  free_entry-IsRefusal slot none = refused (no_free _)
  free_entry-IsRefusal slot (some invalid) = refused (no_free _)
  free_entry-IsRefusal slot (some leaf) = returned tt
  free_entry-IsRefusal slot (some prefix) = returned tt
  free_entry-IsRefusal slot (some blob) = returned tt
  free_entry-IsRefusal slot (some node4) = returned tt
  free_entry-IsRefusal slot (some node16) = returned tt
  free_entry-IsRefusal slot (some node48) = returned tt
  free_entry-IsRefusal slot (some node256) = returned tt
  free_entry-IsRefusal slot (some empty_root) = returned tt

  pub free_node-IsRefusal :
      (slot : ℕ) → Returns (λ (g : BlobFrame). Unit {0}) IsRefusal (free_node slot f)
  unfolding free_node
  free_node-IsRefusal slot = elim (slot_entry-cases f slot) [
    | inl e ↦ rw (e, free_node) (refused (no_free _))
    | inr (p, q, e) ↦ rw (e, free_node) (free_entry-IsRefusal slot _)
  ]

-- The allocator of a blob.
unfoldable pub frame_allocator : Allocator BlobFrame
frame_allocator = record {
  alloc_node = alloc_node;
  alloc_extent = alloc_extent;
  free_node = free_node;
  alloc_node-slot = λ t f. alloc_node-Slot f t;
  alloc_extent-refusal = λ n f. alloc_extent-IsRefusal f n;
  free_node-refusal = λ n f. free_node-IsRefusal f n;
}
