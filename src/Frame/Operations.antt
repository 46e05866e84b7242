-- ===== src/Frame/Operations.antt =====
-- Each operation of store/blob_frame.rs stays in the data area.
use artisan.Prelude.{
  ℕ, ◌-◌, ◌≤◌, ◌≡◌, ◌≢◌, refl, true, false, Option, none, some, ltb, leb, ◌==◌, arith, inl, inr,
}
use artisan.Errors.{Post, good, bad, Post-if, Post-bind}
use artisan.Layout.Node.{
  NodeType, invalid, leaf, prefix, blob, node4, node16, node48, node256, empty_root, size_of_node,
  page_size, max_slots, as_u8,
}
use artisan.Layout.Slot.{decode, node_type}
use artisan.Frame.{
  BlobFrame, spillover_reservation, take_free, bump, alloc_sibling, alloc_valid, alloc_node_inner,
  available, alloc_node, free_entry, free_node, alloc_extent, align8,
}
use artisan.Frame.Bounds.{
  Bounded, reserve_of, retag, grow, extend, size_of_node-lem, available-lem, slot_entry-cases,
}

module _ (r : ℕ) (f : BlobFrame) (b : Bounded r f) where
  take_free-Bounded : (i : ℕ) (t : NodeType) → Post (λ (slot, g). Bounded r g) (take_free i t f)
  unfolding take_free decode
  take_free-Bounded i t = elim (slot_entry-cases f (f.header.free_list_head i)) [
    | inl e ↦ rw (e, take_free) bad
    | inr (p, q, e) ↦ rw (e, take_free) (good (retag (f.header.free_list_head i) (as_u8 t) p q b))
  ]

  bump-Bounded :
      (t : NodeType) → t ≢ invalid → r ≤ reserve_of t → Post (λ (slot, g). Bounded r g) (bump t f)
  unfolding bump
  bump-Bounded t h k =
      let (s8, s) = size_of_node-lem t h in
      Post-if (λ e. bad)
        (λ (e : leb max_slots f.header.num_slots ≡ false).
          Post-if (λ e2. bad)
            (λ (e2 : ltb (available t f) (size_of_node t) ≡ false). good (
              extend (size_of_node t) (as_u8 t) b s8 s (ground (arith, b.ends, available-lem t f))
                (ground arith))))

  pub alloc_extent-Bounded :
      (size : ℕ) → r ≤ spillover_reservation → Post (λ (off, g). Bounded r g) (alloc_extent size f)
  unfolding alloc_extent
  alloc_extent-Bounded size k =
      Post-if (λ (e : (size == 0) ≡ true). bad)
        (λ (e : (size == 0) ≡ false).
          Post-if (λ e2. bad)
            (λ (e2 : ltb (page_size - f.header.space_used - spillover_reservation) (align8 size)
                ≡ false).
              good (grow (align8 size) b (omega arith) (ground (arith, b.ends)))))

  alloc_sibling-Bounded :
      (t : NodeType)
      → t ≢ invalid
      → r ≤ reserve_of t
      → Post (λ (slot, g). Bounded r g) (alloc_sibling t f)
  unfolding alloc_sibling
  alloc_sibling-Bounded invalid h k = absurd (h refl)
  alloc_sibling-Bounded leaf h k = bump-Bounded leaf h k
  alloc_sibling-Bounded prefix h k =
      Post-if {b = f.header.free_list_head 2 == 0} {n = take_free 2 prefix f}
        (λ e. bump-Bounded prefix h k) (λ e. take_free-Bounded 2 prefix)
  alloc_sibling-Bounded blob h k =
      Post-if {b = f.header.free_list_head 1 == 0} {n = take_free 1 blob f}
        (λ e. bump-Bounded blob h k) (λ e. take_free-Bounded 1 blob)
  alloc_sibling-Bounded node4 h k = bump-Bounded node4 h k
  alloc_sibling-Bounded node16 h k = bump-Bounded node16 h k
  alloc_sibling-Bounded node48 h k = bump-Bounded node48 h k
  alloc_sibling-Bounded node256 h k = bump-Bounded node256 h k
  alloc_sibling-Bounded empty_root h k = bump-Bounded empty_root h k

  alloc_valid-Bounded :
      (t : NodeType)
      → t ≢ invalid
      → r ≤ reserve_of t
      → Post (λ (slot, g). Bounded r g) (alloc_valid t f)
  unfolding alloc_valid
  alloc_valid-Bounded t h k =
      Post-if (λ e. alloc_sibling-Bounded t h k) (λ e. take_free-Bounded (as_u8 t - 1) t)

  alloc_node_inner-Bounded :
      (t : NodeType) → r ≤ reserve_of t → Post (λ (slot, g). Bounded r g) (alloc_node_inner t f)
  unfolding alloc_node_inner
  alloc_node_inner-Bounded invalid k = bad
  alloc_node_inner-Bounded leaf k = alloc_valid-Bounded leaf (λ e. absurd (cc e)) k
  alloc_node_inner-Bounded prefix k = alloc_valid-Bounded prefix (λ e. absurd (cc e)) k
  alloc_node_inner-Bounded blob k = alloc_valid-Bounded blob (λ e. absurd (cc e)) k
  alloc_node_inner-Bounded node4 k = alloc_valid-Bounded node4 (λ e. absurd (cc e)) k
  alloc_node_inner-Bounded node16 k = alloc_valid-Bounded node16 (λ e. absurd (cc e)) k
  alloc_node_inner-Bounded node48 k = alloc_valid-Bounded node48 (λ e. absurd (cc e)) k
  alloc_node_inner-Bounded node256 k = alloc_valid-Bounded node256 (λ e. absurd (cc e)) k
  alloc_node_inner-Bounded empty_root k = alloc_valid-Bounded empty_root (λ e. absurd (cc e)) k

  pub alloc_node-Bounded :
      (t : NodeType) → r ≤ reserve_of t → Post (λ (slot, g). Bounded r g) (alloc_node t f)
  unfolding alloc_node
  alloc_node-Bounded t k = Post-bind (alloc_node_inner-Bounded t k) (λ (slot, g) h. good h)

  free_entry-Bounded :
      (slot : ℕ) (o : Option NodeType)
      → 1 ≤ slot
      → slot ≤ f.header.num_slots
      → Post (Bounded r) (free_entry slot (decode (f.table slot)) o f)
  unfolding free_entry decode
  free_entry-Bounded slot none p q = bad
  free_entry-Bounded slot (some invalid) p q = bad
  free_entry-Bounded slot (some leaf) p q = good (retag slot (f.header.free_list_head 0) p q b)
  free_entry-Bounded slot (some prefix) p q = good (retag slot (f.header.free_list_head 1) p q b)
  free_entry-Bounded slot (some blob) p q = good (retag slot (f.header.free_list_head 2) p q b)
  free_entry-Bounded slot (some node4) p q = good (retag slot (f.header.free_list_head 3) p q b)
  free_entry-Bounded slot (some node16) p q = good (retag slot (f.header.free_list_head 4) p q b)
  free_entry-Bounded slot (some node48) p q = good (retag slot (f.header.free_list_head 5) p q b)
  free_entry-Bounded slot (some node256) p q = good (retag slot (f.header.free_list_head 6) p q b)
  free_entry-Bounded slot (some empty_root) p q =
      good (retag slot (f.header.free_list_head 7) p q b)

  pub free_node-Bounded : (slot : ℕ) → Post (Bounded r) (free_node slot f)
  unfolding free_node decode
  free_node-Bounded slot = elim (slot_entry-cases f slot) [
    | inl e ↦ rw (e, free_node) bad
    | inr (p, q, e) ↦
        rw (e, free_node) (free_entry-Bounded slot (node_type (decode (f.table slot))) p q)
  ]
