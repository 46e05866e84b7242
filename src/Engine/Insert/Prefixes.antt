-- ===== src/Engine/Insert/Prefixes.antt =====
-- An insert where the key leaves a prefix or the bytes of a BlobNode.
use artisan.Prelude.{
  ℕ, ◌+◌, ◌≤◌, ◌<◌, ◌≡◌, refl, ap, ◌∙◌, true, false, List, [], ◌∷◌, ltb, leb, ◌==◌, if◌then◌else◌,
  length, take, drop, get_or, arith, Bool-cases, inl, inr, length-drop, length-append, ◌++◌,
  append-nil,
}
use artisan.Errors.{ok, Returns, returned, Returns-bind, Returns-if}
use artisan.Engine.Allocator.{Allocator, IsRefusal}
use artisan.Engine.Key.{user, key_len, longest_common_prefix}
use artisan.Engine.Key.Terminated.{starts, full, common_prefix_with_slice-full}
use artisan.Engine.Tree.{Node, prefix, blob_node, not_found, crossing, blob_max_inline}
use artisan.Engine.Tree.Finds.{IsTree, look}
use artisan.Engine.Tree.Keyed.{around}
use artisan.Engine.Writers.{write_prefix_chain}
use artisan.Engine.Writers.Finds.{Under, write_prefix_chain-Under}
use artisan.Engine.Insert.{
  InsertCondition, is_version, Blob, in_space, split_prefix, blob_node_insert_step,
}
use artisan.Engine.Insert.Forks.{write_fork-Forked}
use artisan.Engine.Insert.Sides.{bytes_forked, fork-Stored}
use artisan.Engine.Insert.Partings.{common_starts, common_bound}
use artisan.Engine.Insert.Steps.{Inserted, kept-Inserted, new-Inserted}
use artisan.Engine.Insert.Splits.{parting, parting_byte, key_byte, parts_differ, rest_length}

module _ {S : Type 0} (a : Allocator S) (k value : List ℕ) (seq : ℕ)
    (condition : InsertCondition) where
  -- The key's bytes leave the inline bytes before they end.
  leaves :
      (bytes : List ℕ) (d : ℕ)
      → starts bytes (drop d (full k)) ≡ false
      → longest_common_prefix (drop d (full k)) bytes < length bytes
  leaves bytes d e =
      ground (arith, common_starts (drop d (full k)) bytes, common_bound (drop d (full k)) bytes, e)

  pub blob_node_insert_step-Inserted :
      (slot : ℕ) (bytes : List ℕ) (guid d : ℕ) (b : Blob S)
      → 1 ≤ slot
      → length bytes ≤ 104
      → (starts bytes (drop d (full k)) ≡ false
          → longest_common_prefix (drop d (full k)) bytes < length (drop d (full k)))
      → Returns
          (Inserted (full k) value seq condition (blob_node slot bytes guid) d b)
          IsRefusal
          (blob_node_insert_step a (user k) value seq condition slot bytes guid d b)
  unfolding blob_node_insert_step
  blob_node_insert_step-Inserted slot bytes guid d b i m h =
      let c = longest_common_prefix (drop d (full k)) bytes in
      let e1 : ltb blob_max_inline (length bytes) ≡ false = ground arith in
      rw (e1, common_prefix_with_slice-full k bytes d, common_starts (drop d (full k)) bytes)
        (elim (Bool-cases (starts bytes (drop d (full k)))) [
          | inl e ↦ rw e (returned (rw e refl, refl))
          | inr e ↦
              let h1 = h e in
              let h2 = leaves bytes d e in
              let tail = blob_node slot (drop (c + 1) bytes) guid in
              let absent : look (blob_node slot bytes guid) (full k) d ≡ not_found = rw e refl in
              let it : IsTree tail = (i, omega (arith, m, length-drop (c + 1) bytes)) in
              rw (e, key_byte k bytes d h1, common_prefix_with_slice-full k bytes d)
                (Returns-if
                  (λ (v : is_version condition ≡ true). returned (
                    kept-Inserted (full k) value seq condition (blob_node slot bytes guid) d b
                      (i, m) absent v))
                  (λ (v : is_version condition ≡ false).
                    Returns-bind
                      (write_fork-Forked a k value seq condition (take c bytes) (get_or bytes c 0)
                        tail (parting (full k) bytes d) b.space it
                        (parts_differ (full k) bytes d (h1, h2)))
                      (λ (t, s) (u, (f, g)). returned (
                        new-Inserted (full k) value seq condition (blob_node slot bytes guid) t d b
                          (in_space b s) u absent v
                          (λ w.
                            f w d
                            ∙ bytes_forked (full k) value seq bytes tail (parting (full k) bytes d)
                                w d (crossing guid (d + length bytes)) h2
                                (parting_byte (full k) bytes d h1)
                                (rw (rest_length bytes c d h2) refl))
                          (λ path m st x.
                            let (pp, st2) =
                              fork-Stored path (full k) bytes d (parting (full k) bytes d) m st h1
                                h2 (parting_byte (full k) bytes d h1) in
                            g path pp (rw (around path bytes c h2) x) st2)))))
        ])

  rest_Under :
      (bytes : List ℕ) (child : Node) (s : S)
      → IsTree child
      → Returns
          (Under bytes child)
          IsRefusal
          (if length bytes == 0 then ok (child, s) else write_prefix_chain a bytes child s)
  rest_Under [] child s t =
      returned (t, (λ w d. ap (look child w) (omega arith), λ path p h. rw (append-nil path) at h))
  rest_Under (x ∷ bytes) child s t =
      let e : (length (x ∷ bytes) == 0) ≡ false = ground arith in
      rw e (write_prefix_chain-Under a (x ∷ bytes) child s t)

  pub split_prefix-Inserted :
      (slot : ℕ) (bytes : List ℕ) (child : Node) (d : ℕ) (b : Blob S)
      → IsTree (prefix slot bytes child)
      → starts bytes (drop d (full k)) ≡ false
      → longest_common_prefix (drop d (full k)) bytes < length (drop d (full k))
      → Returns (Inserted (full k) value seq condition (prefix slot bytes child) d b) IsRefusal (
          split_prefix a
            (user k)
            value
            seq
            condition
            slot
            bytes
            child
            d
            (longest_common_prefix (drop d (full k)) bytes)
            b)
  unfolding split_prefix
  split_prefix-Inserted slot bytes child d b it e h1 =
      let c = longest_common_prefix (drop d (full k)) bytes in
      let h2 = leaves bytes d e in
      let e1 : leb (key_len (user k)) (d + c) ≡ false =
        ground (arith, h1, length-drop d (full k), length-append k (0 ∷ [])) in
      let absent : look (prefix slot bytes child) (full k) d ≡ not_found = rw e refl in
      rw (e1, key_byte k bytes d h1)
        (Returns-if
          (λ (v : is_version condition ≡ true).
            returned (
              kept-Inserted (full k) value seq condition (prefix slot bytes child) d b it absent v))
          (λ (v : is_version condition ≡ false).
            Returns-bind (rest_Under (drop (c + 1) bytes) child b.space it.1.1)
              (λ (x, s1) (ix, (g, y)).
                Returns-bind
                  (write_fork-Forked a k value seq condition (take c bytes) (get_or bytes c 0) x
                    (parting (full k) bytes d) s1 ix (parts_differ (full k) bytes d (h1, h2)))
                  (λ (t, s2) (u, (f, z)). Returns-bind (a.free_node-refusal slot s2) (λ s3 u'.
                    returned (
                      new-Inserted (full k) value seq condition (prefix slot bytes child) t d b
                        (in_space b s3) u absent v
                        (λ w.
                          f w d
                          ∙ bytes_forked (full k) value seq bytes x (parting (full k) bytes d) w d
                              (look child w (d + length bytes)) h2
                              (parting_byte (full k) bytes d h1)
                              (g w (d + c + 1) ∙ rw (rest_length bytes c d h2) refl))
                        (λ path m st x.
                          let (pp, st2) =
                            fork-Stored path (full k) bytes d (parting (full k) bytes d) m st h1 h2
                              (parting_byte (full k) bytes d h1) in
                          z path pp
                            (y ((path ++ take c bytes) ++ (get_or bytes c 0 ∷ []))
                              (rw (around path bytes c h2) x.0) (rw (around path bytes c h2) x.1))
                            st2)))))))
