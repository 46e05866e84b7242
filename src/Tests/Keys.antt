-- ===== src/Tests/Keys.antt =====
-- Keys of path segments at concrete inputs.
use artisan.Prelude.{◌≡◌, refl, List, [], ◌∷◌, ℕ}
use artisan.Engine.Tree.Keyed.{Pos}
use artisan.Api.KeyPath.{
  contains_nul, built, rejected, validate_segment, push, push_all, with_namespace, into_prefix,
}
use artisan.Api.KeyPath.Segments.{parts_from, push_all-parts}

-- "o", "b.c"
abbrev segments : List (List ℕ)
segments = (111 ∷ []) ∷ (98 ∷ 46 ∷ 99 ∷ []) ∷ []

abbrev key : List ℕ
key = 111 ∷ 47 ∷ 98 ∷ 46 ∷ 99 ∷ []

key_built : push_all [] segments ≡ built key
unfolding push validate_segment
key_built = refl

nul_rejected : push key (97 ∷ 0 ∷ []) ≡ rejected contains_nul
unfolding push validate_segment
nul_rejected = refl

namespace_ends : with_namespace (111 ∷ []) ≡ built (111 ∷ 47 ∷ [])
unfolding with_namespace validate_segment
namespace_ends = refl

prefix_ends : into_prefix (111 ∷ 47 ∷ []) ≡ 111 ∷ 47 ∷ []
unfolding into_prefix
prefix_ends = refl

push_all-parts_example : (parts_from [] key ≡ segments) × Pos key
push_all-parts_example = push_all-parts (111 ∷ []) ((98 ∷ 46 ∷ 99 ∷ []) ∷ []) key key_built
