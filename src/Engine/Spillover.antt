-- ===== src/Engine/Spillover.antt =====
-- engine/walker/spillover.rs: a subtree of a full blob moves into a blob of its own. The guid of the
-- new blob is an argument: `fresh_blob_guid` takes it from the clock and the system's entropy.
pub mod Victims
pub mod Scores
pub mod Picks
pub mod Replaces
pub mod Lookups
use artisan.Prelude.{ℕ, Option, none, some, List, [], ◌∷◌}
use artisan.Errors.{Outcome, ok, err, panic, out_of_fuel, ◌>>=◌}
use artisan.Layout.Node.{NodeType}
use artisan.Frame.{BlobFrame}
use artisan.Engine.Allocator.{Allocator}
use artisan.Engine.Allocator.Framed.{frame_allocator}
use artisan.Engine.Inner.{Inner, inner_update_child, put_at, corrupt}
use artisan.Engine.Tree.{Node, empty_root, leaf, prefix, inner, blob_node, slot_of}
use artisan.Engine.Migrate.Images.{Image, make_blob_from_node}
use artisan.Engine.Spillover.Victims.{Edge, below_prefix, at_byte, child_bytes, pick_victim_subtree}

-- Only the last edge holds another slot.
abbrev pub tell : List Edge → Inner → ℕ → Node → Outcome Inner
tell [] n b c = inner_update_child n b (slot_of c)
tell (e ∷ es) n b c = ok n

-- A new node in the place of a node, told to its parent: `set_prefix_child`, `inner_update_child`.
unfoldable pub replace_at : List Edge → Node → Node → Outcome Node
replace_at [] t new = ok new
replace_at (below_prefix ∷ es) (prefix slot bytes child) new =
    replace_at es child new >>= λ c. ok (prefix slot bytes c)
replace_at (at_byte b ∷ es) (inner slot n children) new = replace_at es (children b) new >>= λ c.
    tell es n b c >>= λ n'. ok (inner slot n' (put_at children b c))
replace_at (e ∷ es) t new = corrupt

module _ {S : Type 0} (a : Allocator S) where
  abbrev free_children : (ℕ → S → Outcome S) → List ℕ → S → Outcome S
  free_children f [] s = ok s
  free_children f (b ∷ bs) s = f b s >>= free_children f bs

  unfoldable pub free_subtree : Node → S → Outcome S
  free_subtree (empty_root slot) s = a.free_node slot s
  free_subtree (leaf slot l) s = a.free_node slot s
  free_subtree (prefix slot bytes child) s = free_subtree child s >>= a.free_node slot
  free_subtree (inner slot n children) s =
      free_children (λ b s'. free_subtree (children b) s') (child_bytes n) s >>= a.free_node slot
  free_subtree (blob_node slot bytes guid) s = a.free_node slot s

-- `spillover_blob`: the image goes to `install_new_blob` under the guid. The victim is never the root,
-- whose slot the header keeps.
unfoldable pub spillover_blob : Image → ℕ → Outcome (Image × Image)
spillover_blob i new_guid = do
  c ← pick_victim_subtree i.root
  child ← make_blob_from_node c.victim new_guid
  f1 ← free_subtree frame_allocator c.victim i.frame
  (slot, f2) ← frame_allocator.alloc_node NodeType.blob f1
  n ← replace_at c.path i.root (blob_node slot [] new_guid)
  ok (record i { frame = f2; root = n }, child)
