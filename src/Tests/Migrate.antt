-- ===== src/Tests/Migrate.antt =====
-- Compactions, spillovers and merges at concrete inputs.
use artisan.Prelude.{
  ℕ, ◌≡◌, refl, true, false, some, List, [], ◌∷◌, ◌==◌, if◌then◌else◌, arith, Bool-cases, inl, inr,
}
use artisan.Errors.{Outcome, ok, err, not_found as missing, ◌>>=◌, Returns, Post, good, bad}
use artisan.Frame.{zeroed}
use artisan.Engine.Allocator.{IsRefusal}
use artisan.Engine.Key.{user}
use artisan.Engine.Inner.{cells4, insert_sorted, put_at}
use artisan.Engine.Tree.{Leaf, Node, empty_root, leaf, prefix, inner, blob_node, not_found, descend}
use artisan.Engine.Tree.Finds.{IsTree, descend-look}
use artisan.Engine.Writers.{live}
use artisan.Engine.Writers.Finds.{two_IsInner, two_children}
use artisan.Engine.Insert.{InsertCondition}
use artisan.Engine.Erase.{EraseCondition}
use artisan.Engine.Operations.{put, delete}
use artisan.Engine.Migrate.{clone_subtree, clone_inner, clone_leaf, pack_inner_node}
use artisan.Engine.Writers.{write_prefix_chain, prefix_chain, leaf_extent_size}
use artisan.Engine.Migrate.Images.{Image, compact_blob, make_blob_from_node}
use artisan.Engine.Migrate.Clones.{IsOwned}
use artisan.Engine.Migrate.Compacts.{
  Compacted, Moved, compact_blob-Compacted, make_blob_from_node-Moved,
}
use artisan.Engine.Migrate.Runs.{
  Event, operation, compaction, run_events, effects, IsByteMap, run_events-IsByteMap,
}
use artisan.Engine.Merge.{Pass, is_mergeable, try_merge_children}
use artisan.Engine.Merge.Passes.{Serves}
use artisan.Engine.Merge.Lookups.{Finds, try_merge_children-Finds}
use artisan.Engine.Spillover.{spillover_blob}
use artisan.Engine.Spillover.Victims.{VictimCandidate, candidate_tie, candidate_is_better}
use artisan.Engine.Spillover.Scores.{scores, first_lower, candidate_is_better-scores}
use artisan.Engine.Spillover.Lookups.{Spilled, spillover_blob-Spilled}
use artisan.Tests.Tree.{counter}
use artisan.Frame.{
  init, alloc_node, alloc_node_inner, alloc_valid, alloc_sibling, bump, take_free, free_node,
  free_entry, alloc_extent, slot_entry,
}
use artisan.Engine.Allocator.Framed.{frame_allocator}
use artisan.Engine.Insert.{
  insert_at_step, insert_into_empty_root, insert_into_leaf, split_leaf, write_fork,
}
use artisan.Engine.Writers.{write_leaf, write_node4_with}
use artisan.Engine.Key.{common_prefix_with_slice, byte_at, eq_slice, padded, range_eq}
use artisan.Engine.Inner.{inner_find_child, inner_update_child}
use artisan.Engine.Spillover.{free_subtree, replace_at}
use artisan.Engine.Spillover.Victims.{
  pick_victim_subtree, collect_victim_candidates, visit_child_edge, subtree_footprint, child_bytes,
}
use artisan.Engine.Migrate.Images.{seal_root}
use artisan.Layout.Slot.{node_type, decode, raw}
use artisan.Layout.Node.{from_raw}
use artisan.Engine.Forest.{Hit, lookup_multi}
use artisan.Engine.Merge.{pairs_of}
use artisan.Engine.Spillover.Lookups.{install}

abbrev dead_a : Leaf
dead_a = record { key_offset = 45056; key = 97 ∷ 0 ∷ []; value = 1 ∷ []; seq = 5; tombstone = true }

abbrev leaf_ab : Leaf
leaf_ab = live 45064 (97 ∷ 98 ∷ 0 ∷ []) (2 ∷ []) 6

-- A key that is buried, and a longer one.
abbrev fork : Node
fork = prefix 4 (97 ∷ []) (
    inner 3 (cells4 (insert_sorted 98 2 (insert_sorted 0 1 [])))
      (put_at (λ b. leaf 2 leaf_ab) 0 (leaf 1 dead_a)))

fork-IsTree : IsTree fork
fork-IsTree = (
  omega arith,
  (
    omega arith,
    (
      omega arith,
      (
        two_IsInner 0 1 98 2 (omega arith) (omega arith) (omega arith),
        two_children 0 (leaf 1 dead_a) 98 (leaf 2 leaf_ab) (omega arith) (omega arith)
            (omega arith),
      ),
    ),
  ),
)

fork-IsOwned : IsOwned fork
fork-IsOwned = (tt, λ b c e. elim (Bool-cases (b == 0)) [ inl z ↦ rw z tt | inr z ↦ rw z tt ])

abbrev image : Image
image = record { frame = zeroed 7; root = fork; tombstone_leaf_cnt = 1; compact_times = 0 }

-- The buried key goes, and the lone child is reached through a prefix.
compaction_collapses :
    clone_subtree counter true fork 10
    ≡ ok (
      some (
          prefix 13
            (97 ∷ [])
            (prefix 12 (98 ∷ []) (leaf 11 (live 10 leaf_ab.key leaf_ab.value 6)))),
      13,
    )
unfolding clone_subtree clone_inner clone_leaf pack_inner_node write_prefix_chain prefix_chain
    leaf_extent_size
compaction_collapses = refl

compact_blob-Compacted_example : Returns (Compacted image) IsRefusal (compact_blob image)
compact_blob-Compacted_example = compact_blob-Compacted image fork-IsTree

make_blob_from_node-Moved_example : Returns (Moved fork) IsRefusal (make_blob_from_node fork 9)
make_blob_from_node-Moved_example = make_blob_from_node-Moved fork 9 fork-IsTree fork-IsOwned

abbrev empty_image : Image
empty_image = record {
  frame = zeroed 7;
  root = empty_root 1;
  tombstone_leaf_cnt = 0;
  compact_times = 0;
}

abbrev some_events : List Event
some_events =
    operation (put (97 ∷ []) (1 ∷ []) 5 InsertCondition.always)
    ∷ operation (delete (97 ∷ []) EraseCondition.always)
    ∷ compaction
    ∷ operation (put (97 ∷ []) (2 ∷ []) 6 InsertCondition.if_absent)
    ∷ []

run_events-IsByteMap_example :
    Returns
      (λ (j : Image). IsByteMap [] j.root (effects some_events (λ k. not_found)))
      IsRefusal
      (run_events 0 some_events empty_image)
run_events-IsByteMap_example =
    run_events-IsByteMap [] some_events empty_image (λ k. not_found)
      ((omega arith, ([], (tt, refl))), λ k b h. descend-look (empty_root 1) k 0 (omega arith) h)
      (
        ((omega arith, tt), ((omega arith, tt), refl)),
        (
          ((omega arith, tt), ((omega arith, tt), refl)),
          (tt, (((omega arith, tt), ((omega arith, tt), refl)), tt)),
        ),
      )

-- No blob is known.
abbrev nothing_pinned : ℕ → Outcome Image
nothing_pinned g = err missing

spillover_blob-Spilled_example : Post (Spilled nothing_pinned 9 image) (spillover_blob image 9)
spillover_blob-Spilled_example =
    spillover_blob-Spilled nothing_pinned 9 image (λ j e. absurd (cc e)) (λ g i e. absurd (cc e))
      fork-IsTree fork-IsOwned

-- A parent with the blob 9 below a prefix.
abbrev parent : Image
parent = record {
  frame = zeroed 7;
  root = prefix 2 (99 ∷ []) (blob_node 1 (47 ∷ []) 9);
  tombstone_leaf_cnt = 0;
  compact_times = 0;
}

-- A child that counts no tombstones.
abbrev child : Image
child = record image { tombstone_leaf_cnt = 0 }

folds : is_mergeable parent.frame child ≡ true
unfolding is_mergeable
folds = refl

abbrev one_pinned : ℕ → Outcome Image
one_pinned g = if g == 9 then ok child else err missing

one_pinned-Serves : Serves one_pinned
one_pinned-Serves g = elim (Bool-cases (g == 9)) [
  | inl z ↦ rw z (good (fork-IsTree, fork-IsOwned))
  | inr z ↦ rw z bad
]

try_merge_children-Finds_example :
    Post
      (λ (r : Image × Pass).
        Finds one_pinned parent.root r.0.root × Finds one_pinned r.0.root parent.root)
      (try_merge_children one_pinned 0 parent)
try_merge_children-Finds_example =
    try_merge_children-Finds one_pinned 0 parent one_pinned-Serves
      (omega arith, (omega arith, (omega arith, omega arith)))

abbrev candidate : ℕ → VictimCandidate
candidate bytes = record {
  path = [];
  victim = empty_root 1;
  footprint = record { nodes = 1; bytes = bytes };
  path_component = false;
  boundary_depth = 1;
}

in_band_first : candidate_is_better (candidate 300000) (candidate 350000) ≡ true
unfolding candidate_is_better
in_band_first = refl

nearer : candidate_is_better (candidate 350000) (candidate 400000) ≡ true
unfolding candidate_is_better candidate_tie
nearer = refl

candidate_is_better-scores_example :
    candidate_is_better (candidate 350000) (candidate 400000)
    ≡ first_lower (scores (candidate 350000)) (scores (candidate 400000)) false
candidate_is_better-scores_example =
    candidate_is_better-scores (candidate 350000) (candidate 400000)

-- Two keys with the same first byte: the fork below it moves, and both are found through the new blob.
abbrev spilled_lookup : List ℕ → Outcome Hit
spilled_lookup k = do
  f ← init 7
  i ←
      run_events 0
        (operation (put (97 ∷ []) (1 ∷ []) 5 InsertCondition.always)
          ∷ operation (put (97 ∷ 98 ∷ []) (2 ∷ []) 6 InsertCondition.always)
          ∷ [])
        (record { frame = f; root = empty_root 1; tombstone_leaf_cnt = 0; compact_times = 0 })
  (j, c) ← spillover_blob i 9
  lookup_multi (install nothing_pinned 9 c) 2 (user k) j.root 0

spilled_found : spilled_lookup (97 ∷ 98 ∷ []) ≡ ok (some (2 ∷ [], 6))
unfolding init alloc_node alloc_node_inner alloc_valid alloc_sibling bump take_free free_node
    free_entry alloc_extent slot_entry frame_allocator insert_at_step insert_into_empty_root
    insert_into_leaf split_leaf write_leaf write_fork write_node4_with write_prefix_chain
    prefix_chain leaf_extent_size common_prefix_with_slice byte_at eq_slice padded range_eq
    inner_find_child spillover_blob pick_victim_subtree collect_victim_candidates visit_child_edge
    subtree_footprint child_bytes candidate_is_better candidate_tie make_blob_from_node
    clone_subtree clone_inner clone_leaf seal_root free_subtree replace_at inner_update_child
    lookup_multi descend pairs_of node_type from_raw decode raw
spilled_found = refl
