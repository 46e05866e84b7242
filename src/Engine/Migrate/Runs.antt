-- ===== src/Engine/Migrate/Runs.antt =====
-- Inserts, erases and compactions in one blob, as its users see them.
use artisan.Prelude.{ℕ, ◌≤◌, ◌≡◌, refl, ap, ◌∙◌, true, List, [], ◌∷◌, length}
use artisan.Errors.{Outcome, ok, ◌>>=◌, Returns, returned, Returns-bind, Returns-weaken}
use artisan.Frame.{BlobFrame}
use artisan.Engine.Allocator.{IsRefusal}
use artisan.Engine.Allocator.Framed.{frame_allocator}
use artisan.Engine.Key.{user}
use artisan.Engine.Key.Terminated.{starts, full}
use artisan.Engine.Tree.{Node, slot_of, LookupResult, descend}
use artisan.Engine.Tree.Finds.{look, descend-look, starts_length}
use artisan.Engine.Tree.Keyed.{Pos}
use artisan.Engine.Insert.{Blob}
use artisan.Engine.Insert.Lookups.{IsBlobTree}
use artisan.Engine.Operations.{Operation, key_of, step, change, IsMap, step-IsMap, found_there}
use artisan.Engine.Migrate.Images.{Image, compact_blob}
use artisan.Engine.Migrate.Copied.{Bytes}
use artisan.Engine.Migrate.Compacts.{compact_blob-Compacted}

pub data Event : Type 0 where
  operation : Operation → Event
  compaction : Event

-- The image that an operation leaves; its root is named in the header.
abbrev after : Image → Node × Blob BlobFrame → Outcome Image
after i (t, b) = ok (record i {
  frame = record (b.space) { header = record (b.space.header) { root_slot = slot_of t } };
  root = t;
  tombstone_leaf_cnt = b.tombstone_leaf_cnt;
})

abbrev blob_of : Image → Blob BlobFrame
blob_of i = record { space = i.frame; tombstone_leaf_cnt = i.tombstone_leaf_cnt }

abbrev step_event : ℕ → Event → Image → Outcome Image
step_event depth (operation o) i = step frame_allocator depth o i.root (blob_of i) >>= after i
step_event depth compaction i = compact_blob i

abbrev pub run_events : ℕ → List Event → Image → Outcome Image
run_events depth [] i = ok i
run_events depth (e ∷ es) i = step_event depth e i >>= run_events depth es

-- What the events do to a map; a compaction does nothing.
abbrev effect : Event → (List ℕ → LookupResult) → (List ℕ → LookupResult)
effect (operation o) f = change o f
effect compaction f = f

abbrev pub effects : List Event → (List ℕ → LookupResult) → (List ℕ → LookupResult)
effects [] f = f
effects (e ∷ es) f = effects es (effect e f)

-- The keys of bytes of the operations lead to this blob.
abbrev Leads : List ℕ → Event → Type 0
Leads path (operation o) =
    Bytes (key_of o) × (Pos (key_of o) × (starts path (full (key_of o)) ≡ true))
Leads path compaction = Unit {0}

abbrev pub LeadAll : List ℕ → List Event → Type 0
LeadAll path [] = Unit {0}
LeadAll path (e ∷ es) = Leads path e × LeadAll path es

-- Below `path`, lookups of keys of bytes find what the map says.
abbrev pub IsByteMap : List ℕ → Node → (List ℕ → LookupResult) → Type 0
IsByteMap path t f =
    IsBlobTree path t
    × ((k : List ℕ)
        → Bytes k
        → length path ≤ length (full k)
        → descend t (user k) (length path) ≡ ok (f k))

change_same :
    (o : Operation) (f g : List ℕ → LookupResult) (k : List ℕ)
    → g (key_of o) ≡ f (key_of o)
    → g k ≡ f k
    → change o g k ≡ change o f k
change_same o f g k e h = rw (e, h) refl

module _ (path : List ℕ) where
  -- All that a tree holds.
  contents : (t : Node) → IsBlobTree path t → IsMap path t (λ k. look t (full k) (length path))
  contents t i = (i, λ k l. descend-look t k (length path) i.0 l)

  step_event-IsByteMap :
      (e : Event) (i : Image) (f : List ℕ → LookupResult)
      → IsByteMap path i.root f
      → Leads path e
      → Returns
          (λ (j : Image). IsByteMap path j.root (effect e f))
          IsRefusal
          (step_event (length path) e i)
  step_event-IsByteMap (operation o) i f (h, m) (b, (p, s)) =
      let g = λ (k : List ℕ). look i.root (full k) (length path) in
      let same : (k : List ℕ) → Bytes k → length path ≤ length (full k) → g k ≡ f k =
        λ k b l. found_there _ (f k) (g k) (descend-look i.root k (length path) h.0 l) (m k b l) in
      Returns-bind (step-IsMap frame_allocator path o i.root (blob_of i) g (contents i.root h) p s)
        (λ (t, b') (u, n). returned (
          u,
          λ k b2 l.
              n k l
              ∙ ap ok (
                  change_same o f g k (same (key_of o) b (starts_length path (full (key_of o)) s))
                    (same k b2 l)),
        ))
  step_event-IsByteMap compaction i f (h, m) l =
      Returns-weaken (compact_blob-Compacted i h.0)
        (λ j (c, v). ((c.tree, c.keyed path h.1), λ k b l. c.lookups k (length path) b l ∙ m k b l))

  -- A run of inserts, erases and compactions in one blob, the keys being bytes other than zero that
  -- begin with the path of the blob: if the tree is well-formed and the lookups of keys of bytes in
  -- it find what a map says, the run either stops because the allocator refuses, or ends with a
  -- well-formed tree in which these lookups find what the map says after the inserts and the erases
  -- are applied to it in their order. No compaction shows.
  pub run_events-IsByteMap :
      (es : List Event) (i : Image) (f : List ℕ → LookupResult)
      → IsByteMap path i.root f
      → LeadAll path es
      → Returns
          (λ (j : Image). IsByteMap path j.root (effects es f))
          IsRefusal
          (run_events (length path) es i)
  run_events-IsByteMap [] i f h l = returned h
  run_events-IsByteMap (e ∷ es) i f h (l, ls) =
      Returns-bind (step_event-IsByteMap e i f h l)
        (λ j h'. run_events-IsByteMap es j (effect e f) h' ls)
