-- ===== src/Lib.antt =====
-- Verification library of holt, an embedded key-value store over a persistent adaptive radix tree.
--
-- The program keeps its tree in blobs of 512 KB. A write goes to the write-ahead log first: the
-- journal encodes operations as records, a worker appends and syncs them in groups, and after a
-- crash the reader replays the log. The tree lives in blob frames, each with a slot table and a bump
-- allocator with free lists. The buffer manager keeps which blobs are dirty, which a checkpoint
-- epoch owns, and which are candidates for maintenance. Latches and gates order the threads. The
-- walkers look up, insert and erase keys in the tree of one blob, whose nodes the allocator of the
-- frame hands out. A blob is compacted by a copy without its tombstones; a subtree of a full blob is
-- copied into a blob of its own, to which a BlobNode leads; and a small child blob is copied back.
--
-- The parts and the files that model them:
--   src/journal/wal_op.rs, codec.rs       Journal/Record, Wire (the format as pure functions),
--       Encode, Batch (the BatchEncoder), Decode and what is below them
--   src/journal/reader.rs                 Journal/Reader (replay_bytes, its scan and torn-tail rule)
--   src/journal/writer.rs                 Journal/Writer (WalWriter)
--   src/journal/group_commit.rs           Journal/GroupCommit (write_append_batch)
--   src/concurrency/gate.rs                Concurrency/Gate
--   src/concurrency/hybrid_latch.rs       Concurrency/HybridLatch
--   src/concurrency/endpoint_locks.rs     Concurrency/EndpointLocks
--   src/layout/node.rs, slot.rs, header.rs    Layout/Node, Layout/Slot
--   src/store/blob_frame.rs               Frame (BlobFrame) and what is below it
--   src/store/buffer_manager/mutation.rs  BufferManager/Mutation
--   src/engine/walker/key.rs, simd.rs     Engine/Key (SearchKey, and the scalar search)
--   src/layout/nodes.rs                   Engine/Inner (the four inner nodes, with find, update, add and
--       grow of src/engine/walker/writers.rs)
--   src/layout/leaf.rs, prefix.rs, blob_node.rs, src/engine/walker/lookup.rs   Engine/Tree
--   src/engine/walker/writers.rs, insert.rs   Engine/Writers, Engine/Insert
--   src/engine/walker/insert.rs, the run of a batch   Engine/Routes
--   src/engine/walker/erase.rs            Engine/Erase, with the shrinking half of writers.rs
--   src/engine/walker/migrate.rs          Engine/Migrate (clone_subtree), Migrate/Images (compact_blob,
--       make_blob_from_node), Engine/Merge (merge_blob)
--   src/engine/walker/merge.rs            Engine/Merge
--   src/engine/walker/spillover.rs        Engine/Spillover, Spillover/Victims (the choice of the victim)
--   src/engine/walker/lookup.rs, the hops Engine/Forest (lookup_multi)
--   src/api/key.rs                        Api/KeyPath (the builder of slash-separated keys)
--   src/api/errors.rs                     Errors
-- A function of the code has the name it has there. The files of the library name their sources below
-- src. Prelude holds the shared names and lemmas, Concurrency/Threads the counting of threads, and
-- Tests the theorems applied at concrete inputs.
--
-- How the code is modelled. Bytes, words and lengths are natural numbers; where the code wraps, the
-- model has the `% 2 ^ w`, and where it checks a width the model has the check. A buffer is a list
-- of bytes. A fallible function gives an Outcome: a value, an error, a panic, or the end of the fuel
-- of a loop. Code that mutates takes its state and gives it back. Debug assertions are those of a
-- release build: none. The checksum of the crate crc32fast is a parameter, some function from bytes
-- into 32 bits. So is the allocator where the decoder asks it for the count that a batch names
-- (`Vec::with_capacity`): it may refuse, which ends the program and is a panic of the model. Other
-- allocations are taken to succeed. The result of each system call is an argument, a failed write may
-- have written any front, a failed sync may leave anything on the medium, and a crash keeps what was
-- synced and any front of what was written behind it. Atomic
-- operations are the steps of threads that interleave in any order, under sequential consistency.
-- A map of the buffer manager is the function of its lookups.
-- The tree of a blob is a tree of nodes, each with its slot; a parent's table holds the slots of its
-- children, and an update in place gives a node with the same slot. This leaves out that two slots
-- could share a body, and the checks of slots and offsets against the page, which cannot fail for what
-- the allocator has handed out. The walkers take the allocator as an interface (Engine/Allocator),
-- which the blob frame fills (Engine/Allocator/Framed); an error loses the state. Leaves hold their
-- key and value, whose lengths the callers have checked against 65,535. Engine/Operations
-- is a client: runs of inserts and erases against a map; Migrate/Runs adds compactions to them.
-- A copy visits the children of a Node48 by its places, and a node that no byte leads to is not in the
-- model: without the filter of tombstones the theorems ask that every place with a child has its byte.
-- A blob is an Image: its frame, its tree, and two counts of its header. The walkers that go from blob
-- to blob take the manager's `pin` as a parameter, a function from guids to images or errors; blobs to
-- be installed or deleted are results. No other thread writes between the hops.
--
-- Fuel: the batch decoder has one more than the bytes of the body, of which each round takes at
-- least one, and the scan of a log has its length, of which each record takes at least 21 bytes. A
-- prefix chain has one more than its bytes, of which each round takes at least one. A lookup through
-- blobs has the number of blobs that it may visit; the theorems hold for every such number with which
-- it answers, and give one with which the other lookup does.
--
-- Not modelled: the latches of the hops and their restarts, the retries of an insert after a
-- spillover, the rest of insert batches, the route cache and ranges (engine), `fresh_blob_guid`, which
-- reads the clock and the system's entropy, the public API but for the key builder, the cache and
-- eviction of the buffer manager, the blob stores, the checkpoint rounds, the queue of the group commit
-- and its condition variables, the vector code of searches, metrics, bindings and tools. Files,
-- directories and memory orderings weaker than sequential consistency are outside of the model.
pub mod Prelude
pub mod Errors
pub mod Journal
pub mod Concurrency
pub mod Layout
pub mod Frame
pub mod Api
pub mod BufferManager
pub mod Engine
pub mod Tests
