-- ===== src/Engine/Allocator.antt =====
-- What the walkers ask of the allocator of a blob, store/blob_frame.rs.
pub mod Framed
use artisan.Prelude.{ℕ, ◌≤◌, ◌≡◌}
use artisan.Errors.{Error, AllocError, FreeError, alloc, free, Outcome, Returns}
use artisan.Layout.Node.{NodeType}

-- The refusals of the allocator.
pub data IsRefusal : Error → Type 0 where
  no_alloc : (e : AllocError) → IsRefusal (alloc e)
  no_free : (e : FreeError) → IsRefusal (free e)

pub record Allocator (S : Type 0) : Type 0 where
  pub alloc_node : NodeType → S → Outcome (ℕ × S)
  pub alloc_extent : ℕ → S → Outcome (ℕ × S)
  pub free_node : ℕ → S → Outcome S
  pub alloc_node-slot :
      (t : NodeType) (s : S) → Returns (λ (r : ℕ × S). 1 ≤ r.0) IsRefusal (alloc_node t s)
  pub alloc_extent-refusal :
      (size : ℕ) (s : S) → Returns (λ (r : ℕ × S). Unit {0}) IsRefusal (alloc_extent size s)
  pub free_node-refusal :
      (slot : ℕ) (s : S) → Returns (λ (r : S). Unit {0}) IsRefusal (free_node slot s)
