-- ===== src/Tests/Blob.antt =====
-- The allocator of a blob and the candidates of a shard at concrete inputs.
use artisan.Prelude.{ℕ, ◌≤◌, ◌≡◌, ◌||◌, refl, some, List, [], ◌∷◌, arith, length}
use artisan.Errors.{ok}
use artisan.Layout.Node.{leaf, prefix, node4}
use artisan.Layout.Slot.{raw, live, node_type, freed, node_type-freed}
use artisan.Frame.{
  BlobFrame, init, alloc_node, free_node, Call, alloc_node_call, alloc_extent_call, free_node_call,
  run_calls, zeroed, put,
}
use artisan.Frame.Bounds.{Bounded}
use artisan.Frame.Runs.{run_calls-init}
use artisan.Frame.Reuse.{alloc_node-free_node}
use artisan.BufferManager.Mutation.{MaintenanceQueue, insert, pop_batch}
use artisan.BufferManager.Mutation.Queue.{
  pop_batch-exact, IsQueued, mem, Reachable, Reachable-IsQueued, start, inserted, none_queued,
}

node_type-freed_example : node_type (freed 257 45056) ≡ some leaf
node_type-freed_example = node_type-freed leaf 1 45056

abbrev calls : List Call
calls =
    alloc_node_call node4 ∷ alloc_extent_call 13 ∷ alloc_node_call prefix ∷ free_node_call 2 ∷ []

run_calls-init_example : (f : BlobFrame) × ((init 7 ≡ ok f) × Bounded 128 (run_calls f calls))
run_calls-init_example =
    run_calls-init 128 7 calls (omega arith)
      (omega arith, (omega arith, (omega arith, (omega arith, tt))))

-- A blob of one leaf, with nothing freed.
abbrev one_leaf : BlobFrame
one_leaf = record {
  header = record ((zeroed 7).header) { num_slots = 1; root_slot = 1; space_used = 45072 };
  table = put (λ s. 0) 1 (raw (live leaf 45056));
}

alloc_node-free_node_example :
    (g : BlobFrame) × ((h : BlobFrame) × ((free_node 1 one_leaf ≡ ok g)
        × ((alloc_node leaf g ≡ ok (1, h))
            × (((s : ℕ) → h.table s ≡ one_leaf.table s)
                × (((i : ℕ) → h.header.free_list_head i ≡ 0)
                    × ((h.header.num_slots ≡ 1) × (h.header.space_used ≡ 45072)))))))
alloc_node-free_node_example =
    alloc_node-free_node one_leaf 1 leaf 45056 (λ e. absurd (cc e))
      ((omega arith, omega arith), (refl, (omega arith, refl))) (omega arith)

abbrev two_queued : MaintenanceQueue
two_queued = (insert 5 (insert 3 none_queued).1).1

two_reached : Reachable two_queued
two_reached = inserted 5 (inserted 3 start)

pop_batch-exact_example :
    length (pop_batch 1 two_queued).0 ≤ 1
    × (((g : ℕ)
          → ((pop_batch 1 two_queued).1.set g || mem g (pop_batch 1 two_queued).0)
            ≡ two_queued.set g)
        × IsQueued (pop_batch 1 two_queued).1)
pop_batch-exact_example = pop_batch-exact 1 two_queued (Reachable-IsQueued two_reached)
