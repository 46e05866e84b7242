-- ===== src/Engine/Migrate/Compacts.antt =====
-- A compaction, and a blob of its own for a subtree: what lookups find afterwards.
use artisan.Prelude.{
  ℕ, ◌+◌, ◌-◌, ◌^◌, ◌≤◌, ◌≡◌, refl, sym, ap, ◌∙◌, true, false, ◌&&◌, not, Option, none, some, List,
  [], ◌∷◌, ◌==◌, if◌then◌else◌, length, min, arith,
}
use artisan.Errors.{ok, panic, ◌>>=◌, Returns, returned, Returns-bind, Returns-if}
use artisan.Layout.Node.{NodeType}
use artisan.Frame.{BlobFrame, init, zeroed}
use artisan.Engine.Allocator.{IsRefusal}
use artisan.Engine.Allocator.Framed.{frame_allocator, alloc_node-Slot}
use artisan.Engine.Key.{user}
use artisan.Engine.Key.Terminated.{full}
use artisan.Engine.Tree.{Node, slot_of, descend}
use artisan.Engine.Tree.Finds.{IsTree, look, descend-look}
use artisan.Engine.Tree.Keyed.{Keyed, Keyed-Begins}
use artisan.Engine.Migrate.Images.{Image, seal_root, entry_of, make_blob_from_node, compact_blob}
use artisan.Engine.Migrate.Copied.{Bytes, Live, Copied}
use artisan.Engine.Migrate.Clones.{IsOwned, clone_subtree-Copied}

pub Bytes-full : (k : List ℕ) → Bytes k → Bytes (full k)
Bytes-full [] h = (omega arith, tt)
Bytes-full (x ∷ k) (p, h) = (p, Bytes-full k h)

-- Lookups of keys of bytes are the same in both trees.
abbrev pub SameLookups : Node → Node → Type 0
SameLookups t n =
    (k : List ℕ) (d : ℕ)
    → Bytes k
    → d ≤ length (full k)
    → descend n (user k) d ≡ descend t (user k) d

pub looks-SameLookups :
    (t n : Node)
    → IsTree t
    → IsTree n
    → ((w : List ℕ) (d : ℕ) → Bytes w → look n w d ≡ look t w d)
    → SameLookups t n
looks-SameLookups t n i j h k d b l =
    descend-look n k d j l ∙ ap ok (h (full k) d (Bytes-full k b)) ∙ sym (descend-look t k d i l)

-- The root of a blob after a migration of `t`, named in the header.
pub record IsMigrated (t : Node) (j : Image) : Type 0 where
  pub tree : IsTree j.root
  pub looks : (w : List ℕ) (d : ℕ) → Bytes w → look j.root w d ≡ look t w d
  pub lookups : SameLookups t j.root
  pub keyed : (path : List ℕ) → Keyed path t → Keyed path j.root
  pub named : j.frame.header.root_slot ≡ slot_of j.root
  pub uncounted : j.tombstone_leaf_cnt ≡ 0

-- What a compaction leaves.
abbrev pub Compacted : Image → Image → Type 0
Compacted i j =
    IsMigrated i.root j × (Live j.root × (j.compact_times ≡ min (i.compact_times + 1) (2 ^ 32 - 1)))

seal_root-named :
    (n : Node) (f : BlobFrame)
    → Returns (λ (g : BlobFrame). g.header.root_slot ≡ slot_of n) IsRefusal (seal_root n f)
unfolding seal_root
seal_root-named n f = Returns-bind (freed n f) (λ g u. returned refl)
  where
    freed :
        (n : Node) (f : BlobFrame)
        → Returns
            (λ (g : BlobFrame). Unit {0})
            IsRefusal
            (if (f.header.root_slot == 1) && not (slot_of n == 1)
              then frame_allocator.free_node 1 f
              else ok f)
    freed n f =
        Returns-if
          (λ (t : ((f.header.root_slot == 1) && not (slot_of n == 1)) ≡ true).
            frame_allocator.free_node-refusal 1 f)
          (λ (t : ((f.header.root_slot == 1) && not (slot_of n == 1)) ≡ false). returned tt)

init-Returns : (guid : ℕ) → Returns (λ (f : BlobFrame). Unit {0}) IsRefusal (init guid)
unfolding init
init-Returns guid =
    Returns-bind (alloc_node-Slot (zeroed guid) NodeType.empty_root) (λ (slot, f) p. returned tt)

-- The entry of a compacted blob holds what the old root did.
abbrev Entry : Node → Node × BlobFrame → Type 0
Entry t (n, f) =
    IsTree n
    × (((w : List ℕ) (d : ℕ) → Bytes w → look n w d ≡ look t w d)
        × (((path : List ℕ) → Keyed path t → Keyed path n) × Live n))

entry_of-Entry :
    (t : Node) (o : Option Node) (f : BlobFrame)
    → Copied true t (o, f)
    → Returns (Entry t) IsRefusal (entry_of o f)
unfolding entry_of
entry_of-Entry t none f h =
    Returns-bind (frame_allocator.alloc_node-slot NodeType.empty_root f) (λ (slot, g) p.
      returned (p, (λ w d b. sym (h.nothing w d b), (λ path k. Keyed-Begins path t k, tt))))
entry_of-Entry t (some n) f h = returned (h.tree, (h.looks, (h.keyed, h.live refl)))

-- A compaction of a blob whose tree is well-formed either stops because the allocator refuses, or
-- leaves a well-formed tree without a tombstone, in which every key of bytes is looked up, from any
-- depth within its stored bytes, with the same result as before; the count of tombstones is then
-- zero, the header names the root's slot, and the compaction is counted, up to the maximum.
pub compact_blob-Compacted :
    (i : Image) → IsTree i.root → Returns (Compacted i) IsRefusal (compact_blob i)
unfolding compact_blob
compact_blob-Compacted i h = Returns-bind (init-Returns i.frame.header.blob_guid) (λ f u.
    Returns-bind (clone_subtree-Copied frame_allocator true i.root f h (λ q. absurd (cc q)))
      (λ (o, f1) c. Returns-bind (entry_of-Entry i.root o f1 c) (λ (n, f2) (it, (ls, (ks, v))).
        Returns-bind (seal_root-named n f2) (λ f3 e. returned (
          record {
            tree = it;
            looks = ls;
            lookups = looks-SameLookups i.root n h it ls;
            keyed = ks;
            named = e;
            uncounted = refl;
          },
          (v, refl),
        )))))

-- What `make_blob_from_node` leaves.
abbrev pub Moved : Node → Image → Type 0
Moved t j = IsMigrated t j × (Live j.root → Live t)

made-Moved :
    (t : Node) (x : Option Node) (f : BlobFrame)
    → IsTree t
    → Copied false t (x, f)
    → Returns (Moved t) IsRefusal (elim x [
      | none ↦ panic
      | some n ↦ seal_root n f >>= λ f2.
          ok (record { frame = f2; root = n; tombstone_leaf_cnt = 0; compact_times = 0 })
    ])
made-Moved t none f h c = absurd (cc (c.filtered))
made-Moved t (some n) f h c = Returns-bind (seal_root-named n f) (λ g e. returned (
  record {
    tree = c.tree;
    looks = c.looks;
    lookups = looks-SameLookups t n h c.tree c.looks;
    keyed = c.keyed;
    named = e;
    uncounted = refl;
  },
  c.buried refl,
))

-- A blob made from a well-formed subtree, in which every place of every Node48 is the place of some
-- byte: unless the allocator refuses, it is well-formed, the lookups of keys of bytes in it are those
-- of the subtree, and the header names its root. If the subtree has a tombstone then it has one too,
-- and yet its count of tombstones is zero.
pub make_blob_from_node-Moved :
    (t : Node) (guid : ℕ)
    → IsTree t
    → IsOwned t
    → Returns (Moved t) IsRefusal (make_blob_from_node t guid)
unfolding make_blob_from_node
make_blob_from_node-Moved t guid h o = Returns-bind (init-Returns guid) (λ f u.
    Returns-bind (clone_subtree-Copied frame_allocator false t f h (λ q. o))
      (λ (x, f1) c. made-Moved t x f1 h c))
