-- ===== src/Tests/Tree.antt =====
-- The tree of a blob at concrete inputs.
use artisan.Prelude.{ℕ, ◌+◌, ◌≡◌, refl, List, [], ◌∷◌, arith}
use artisan.Errors.{Outcome, ok, ◌>>=◌, Returns, returned}
use artisan.Frame.{BlobFrame, zeroed}
use artisan.Engine.Allocator.{Allocator, IsRefusal}
use artisan.Engine.Allocator.Framed.{frame_allocator}
use artisan.Engine.Key.{user, range_eq, eq_slice, padded, common_prefix_with_slice, byte_at}
use artisan.Engine.Key.Terminated.{full}
use artisan.Engine.Inner.{Inner, cells4, inner_find_child, inner_add_child, inner_update_child}
use artisan.Engine.Inner.Finds.{IsInner}
use artisan.Engine.Inner.Adds.{Puts, Added, inner_add_child-Added}
use artisan.Engine.Inner.Updates.{inner_update_child-Puts}
use artisan.Engine.Tree.{
  Leaf, Node, empty_root, leaf, prefix, LookupResult, not_found, found, descend,
}
use artisan.Engine.Tree.Finds.{look, descend-look}
use artisan.Engine.Writers.{
  live, write_prefix_chain, write_leaf, write_node4_with, prefix_chain, leaf_extent_size,
}
use artisan.Engine.Writers.Finds.{Under, write_prefix_chain-Under}
use artisan.Engine.Insert.{
  InsertCondition, Blob, unsupported, insert_at_step, insert_into_empty_root, insert_into_leaf,
  split_leaf, write_fork, update_leaf,
}
use artisan.Engine.Insert.Lookups.{Lookups, insert_at_step-Lookups}
use artisan.Engine.Insert.Zeros.{insert_at_step_zero}
use artisan.Engine.Erase.{EraseCondition, erase_at_step, erase_at_leaf}
use artisan.Engine.Erase.Tombstones.{Never}
use artisan.Engine.Erase.Lookups.{Buried, erase_at_step-Buried}
use artisan.Engine.Tree.{blob_node}
use artisan.Engine.Routes.{Cross, same_child_prefix_run_len, same_child_prefix_run_len-Cross}
use artisan.Prelude.{map, take}
use artisan.Engine.Operations.{Operation, put, delete, run, replay, IsMap, run-IsMap}

abbrev key_a : List ℕ
key_a = 97 ∷ []

abbrev key_ab : List ℕ
key_ab = 97 ∷ 98 ∷ []

abbrev leaf_a : Leaf
leaf_a = live 45056 (97 ∷ 0 ∷ []) (1 ∷ []) 5

abbrev page : Blob BlobFrame
page = record { space = zeroed 7; tombstone_leaf_cnt = 0 }

-- Slots that count up, for runs.
abbrev pub counter : Allocator ℕ
counter = record {
  alloc_node = λ t n. ok (n + 1, n + 1);
  alloc_extent = λ size n. ok (n, n);
  free_node = λ slot n. ok n;
  alloc_node-slot = λ t n. returned (omega arith);
  alloc_extent-refusal = λ size n. returned tt;
  free_node-refusal = λ slot n. returned tt;
}

abbrev fresh : Blob ℕ
fresh = record { space = 1; tombstone_leaf_cnt = 0 }

abbrev some_operations : List Operation
some_operations =
    put key_a (1 ∷ []) 5 InsertCondition.always
    ∷ put key_ab (2 ∷ []) 6 InsertCondition.if_absent
    ∷ put key_a (3 ∷ 4 ∷ []) 7 (InsertCondition.if_version 5)
    ∷ delete key_ab EraseCondition.always
    ∷ []

abbrev found_after : List ℕ → Outcome LookupResult
found_after k =
    run counter 0 some_operations (empty_root 1) fresh >>= λ (t, b). descend t (user k) 0

run_updates : found_after key_a ≡ ok (found (3 ∷ 4 ∷ []) 7)
unfolding descend insert_at_step erase_at_step erase_at_leaf insert_into_empty_root write_leaf
    insert_into_leaf eq_slice padded split_leaf common_prefix_with_slice byte_at write_fork
    write_node4_with write_prefix_chain prefix_chain inner_find_child update_leaf leaf_extent_size
    range_eq
run_updates = refl

run_buries : found_after key_ab ≡ ok not_found
unfolding descend insert_at_step erase_at_step erase_at_leaf insert_into_empty_root write_leaf
    insert_into_leaf eq_slice padded split_leaf common_prefix_with_slice byte_at write_fork
    write_node4_with write_prefix_chain prefix_chain inner_find_child update_leaf leaf_extent_size
    range_eq
run_buries = refl

run-IsMap_example :
    Returns
      (λ (r : Node × Blob BlobFrame). IsMap [] r.0 (replay some_operations (λ k. not_found)))
      IsRefusal
      (run frame_allocator 0 some_operations (empty_root 1) page)
run-IsMap_example =
    run-IsMap frame_allocator [] some_operations (empty_root 1) page (λ k. not_found)
      ((omega arith, ([], (tt, refl))), λ k h. descend-look (empty_root 1) k 0 (omega arith) h)
      (
        ((omega arith, tt), refl),
        (
          ((omega arith, (omega arith, tt)), refl),
          (((omega arith, tt), refl), (((omega arith, (omega arith, tt)), refl), tt)),
        ),
      )

insert_at_step-Lookups_example :
    Returns
      (Lookups [] key_ab (2 ∷ []) 6 InsertCondition.if_absent (leaf 1 leaf_a) page)
      IsRefusal
      (insert_at_step frame_allocator
        (user key_ab)
        (2 ∷ [])
        6
        InsertCondition.if_absent
        (leaf 1 leaf_a)
        0
        page)
insert_at_step-Lookups_example =
    insert_at_step-Lookups frame_allocator key_ab (2 ∷ []) 6 InsertCondition.if_absent []
      (leaf 1 leaf_a) page (omega arith, (key_a, (((omega arith, tt), refl), refl)))
      (omega arith, (omega arith, tt)) refl

erase_at_step-Buried_example :
    Returns
      (Buried key_a EraseCondition.always (leaf 1 leaf_a) 0 page)
      Never
      (erase_at_step frame_allocator (user key_a) EraseCondition.always (leaf 1 leaf_a) 0 page)
erase_at_step-Buried_example =
    erase_at_step-Buried frame_allocator key_a EraseCondition.always (leaf 1 leaf_a) 0 page
      (omega arith) (omega arith)

insert_at_step_zero_example :
    insert_at_step frame_allocator
      (user (97 ∷ 0 ∷ 98 ∷ []))
      (2 ∷ [])
      6
      InsertCondition.always
      (leaf 1 leaf_a)
      0
      page
    ≡ unsupported
insert_at_step_zero_example =
    insert_at_step_zero frame_allocator key_a (98 ∷ []) (2 ∷ []) 6 InsertCondition.always 1 0 leaf_a
      page refl (omega arith)

-- A full Node4.
abbrev four : Inner
four = cells4 ((1, 5) ∷ (4, 6) ∷ (7, 7) ∷ (9, 8) ∷ [])

four-IsInner : IsInner four
four-IsInner = (
  (
    omega arith,
    (
      (omega arith, (omega arith, (omega arith, tt))),
      (
        omega arith,
        (
          (omega arith, (omega arith, tt)),
          (omega arith, ((omega arith, tt), (omega arith, (tt, tt)))),
        ),
      ),
    ),
  ),
  omega arith,
)

inner_add_child-Added_example :
    Returns
      (Added frame_allocator 3 four 5 9 (zeroed 7))
      IsRefusal
      (inner_add_child frame_allocator 3 four 5 9 (zeroed 7))
inner_add_child-Added_example =
    inner_add_child-Added frame_allocator 3 four 5 9 (zeroed 7) four-IsInner refl (omega arith)
      (omega arith)

inner_update_child-Puts_example :
    (n : Inner) × ((inner_update_child four 7 3 ≡ ok n) × Puts four 7 3 n)
inner_update_child-Puts_example = inner_update_child-Puts four 7 3 7 four-IsInner refl (omega arith)

abbrev fork : Node
fork = prefix 2 (97 ∷ []) (leaf 1 leaf_a)

descend-look_example : descend fork (user key_ab) 0 ≡ ok (look fork (full key_ab) 0)
descend-look_example =
    descend-look fork key_ab 0 (omega arith, (omega arith, omega arith)) (omega arith)

write_prefix_chain-Under_example :
    Returns
      (Under key_ab (leaf 1 leaf_a))
      IsRefusal
      (write_prefix_chain frame_allocator key_ab (leaf 1 leaf_a) (zeroed 7))
write_prefix_chain-Under_example =
    write_prefix_chain-Under frame_allocator key_ab (leaf 1 leaf_a) (zeroed 7) (omega arith)

-- Below "a" is the blob 9.
abbrev routed : Node
routed = blob_node 1 (97 ∷ []) 9

same_child_prefix_run_len-Cross_example : Cross routed 0 9 1 (
    take
      (same_child_prefix_run_len (user key_ab) (map user (key_a ∷ (98 ∷ []) ∷ [])) 1)
      (key_ab ∷ key_a ∷ (98 ∷ []) ∷ []))
same_child_prefix_run_len-Cross_example =
    same_child_prefix_run_len-Cross routed key_ab (key_a ∷ (98 ∷ []) ∷ []) 0 9 1
      (omega arith, omega arith) (omega arith)
      (descend-look routed key_ab 0 (omega arith, omega arith) (omega arith))
