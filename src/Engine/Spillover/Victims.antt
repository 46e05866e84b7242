-- ===== src/Engine/Spillover/Victims.antt =====
-- engine/walker/spillover.rs: the choice of the subtree that leaves a full blob. The edge to a victim,
-- a parent's slot with a kind and a byte, is here the path from the root.
use artisan.Prelude.{
  ℕ, ◌+◌, ◌-◌, ◌*◌, ◌/◌, ◌^◌, min, Bool, true, false, ◌&&◌, not, Option, none, some, List, [], ◌∷◌,
  ◌++◌, ltb, leb, ◌==◌, if◌then◌else◌, length, map,
}
use artisan.Errors.{not_yet_implemented, Outcome, ok, err, ◌>>=◌}
use artisan.Layout.Node.{NodeType, size_of_node, page_size, data_area_start}
use artisan.Engine.Inner.{Cell, Inner, inner_type, cells4, cells16, table48, table256}
use artisan.Engine.Tree.{Node, empty_root, leaf, prefix, inner, blob_node}
use artisan.Engine.Writers.{leaf_extent_size}
use artisan.Engine.Migrate.{byte_of_place}
use artisan.Engine.Merge.{pairs_of, pairs_256}

-- `spillover_data_capacity`, `spillover_target_child_bytes`, `spillover_min_child_bytes`
abbrev spillover_data_capacity : ℕ
spillover_data_capacity = page_size - data_area_start

abbrev pub spillover_target_child_bytes : ℕ
spillover_target_child_bytes = spillover_data_capacity * 70 / 100

abbrev spillover_min_child_bytes : ℕ
spillover_min_child_bytes = spillover_data_capacity * 35 / 100

pub record SubtreeFootprint : Type 0 where
  pub nodes : ℕ
  pub bytes : ℕ

abbrev saturating_add : SubtreeFootprint → SubtreeFootprint → SubtreeFootprint
saturating_add a b = record {
  nodes = min (a.nodes + b.nodes) (2 ^ 32 - 1);
  bytes = min (a.bytes + b.bytes) (2 ^ 32 - 1);
}

-- The bytes of the children, in the order of their places.
abbrev bytes_of_places : (ℕ → ℕ) → ℕ → List ℕ → List ℕ
bytes_of_places index i [] = []
bytes_of_places index i (c ∷ cs) =
    let rest = bytes_of_places index (i + 1) cs in
    if c == 0
    then rest
    else elim (byte_of_place index (i + 1) 256) [ none ↦ rest | some b ↦ b ∷ rest ]

-- The children, as the walks over a whole subtree come to them.
unfoldable pub child_bytes : Inner → List ℕ
child_bytes (cells4 cells) = map (λ (k, c). k) cells
child_bytes (cells16 cells) = map (λ (k, c). k) cells
child_bytes (table48 count index places) = bytes_of_places index 0 places
child_bytes (table256 count child) = map (λ (k, c). k) (pairs_256 child 256 0)

abbrev sum_children : (ℕ → SubtreeFootprint) → List ℕ → SubtreeFootprint → SubtreeFootprint
sum_children f [] out = out
sum_children f (b ∷ bs) out = sum_children f bs (saturating_add out (f b))

abbrev own_footprint : NodeType → SubtreeFootprint
own_footprint t = record { nodes = 1; bytes = size_of_node t }

unfoldable pub subtree_footprint : Node → SubtreeFootprint
subtree_footprint (empty_root slot) = own_footprint NodeType.empty_root
subtree_footprint (leaf slot l) = record {
  nodes = 1;
  bytes =
      min (size_of_node NodeType.leaf + leaf_extent_size (length l.key) (length l.value))
        (2 ^ 32 - 1);
}
subtree_footprint (prefix slot bytes child) =
    saturating_add (own_footprint NodeType.prefix) (subtree_footprint child)
subtree_footprint (inner slot n children) =
    sum_children (λ b. subtree_footprint (children b)) (child_bytes n)
      (own_footprint (inner_type n))
subtree_footprint (blob_node slot bytes guid) = own_footprint NodeType.blob

pub data Edge : Type 0 where
  below_prefix : Edge
  at_byte : ℕ → Edge

pub record VictimCandidate : Type 0 where
  pub path : List Edge
  pub victim : Node
  pub footprint : SubtreeFootprint
  pub path_component : Bool
  pub boundary_depth : ℕ

abbrev pub abs_diff : ℕ → ℕ → ℕ
abs_diff a b = (a - b) + (b - a)

-- Whether one `bool` is not the other.
abbrev pub differ : Bool → Bool → Bool
differ true b = not b
differ false b = b

unfoldable pub candidate_tie : VictimCandidate → VictimCandidate → ℕ → ℕ → Bool
candidate_tie c b score best_score =
    if not (score == best_score)
    then ltb score best_score
    else if differ c.path_component b.path_component
    then c.path_component
    else if not (c.boundary_depth == b.boundary_depth)
    then ltb c.boundary_depth b.boundary_depth
    else ltb b.footprint.nodes c.footprint.nodes

abbrev pub candidate_tie_in_band : VictimCandidate → VictimCandidate → ℕ → ℕ → Bool
candidate_tie_in_band c b score best_score =
    if differ c.path_component b.path_component
    then c.path_component
    else candidate_tie c b score best_score

abbrev pub in_band : ℕ → Bool
in_band bytes = leb spillover_min_child_bytes bytes && leb bytes spillover_target_child_bytes

unfoldable pub candidate_is_better : VictimCandidate → VictimCandidate → Bool
candidate_is_better c b =
    let cb = c.footprint.bytes in
    let bb = b.footprint.bytes in
    let target = spillover_target_child_bytes in
    let least = spillover_min_child_bytes in
    if differ (in_band cb) (in_band bb)
    then in_band cb
    else if in_band cb
    then candidate_tie_in_band c b (abs_diff cb target) (abs_diff bb target)
    else if ltb cb least && ltb bb least
    then candidate_tie c b bb cb
    else if ltb target cb && ltb target bb
    then candidate_tie c b cb bb
    else candidate_tie c b (abs_diff cb target) (abs_diff bb target)

-- `boundary_quality_for_byte`, `boundary_quality_for_prefix`
abbrev pub last_is_slash : List ℕ → Bool
last_is_slash [] = false
last_is_slash (b ∷ []) = b == 47
last_is_slash (b ∷ c ∷ bs) = last_is_slash (c ∷ bs)

abbrev pub is_blob : Node → Bool
is_blob (empty_root slot) = false
is_blob (leaf slot l) = false
is_blob (prefix slot bytes child) = false
is_blob (inner slot n children) = false
is_blob (blob_node slot bytes guid) = true

abbrev pub better : VictimCandidate → Option VictimCandidate → Option VictimCandidate
better c none = some c
better c (some b) = if candidate_is_better c b then some c else some b

abbrev pub visit_children :
    (ℕ → Option VictimCandidate → Outcome (Option VictimCandidate))
    → List Cell
    → Option VictimCandidate
    → Outcome (Option VictimCandidate)
visit_children f [] best = ok best
visit_children f ((b, c) ∷ cells) best = f b best >>= λ best'. visit_children f cells best'

-- The child is a candidate unless it is a BlobNode; the walk goes into a large one.
unfoldable pub visit_child_edge :
    Node
    → List Edge
    → Bool
    → ℕ
    → Option VictimCandidate
    → (Option VictimCandidate → Outcome (Option VictimCandidate))
    → Outcome (Option VictimCandidate)
visit_child_edge child path boundary depth best into =
    let best' =
      better
        (record {
          path = path;
          victim = child;
          footprint = subtree_footprint child;
          path_component = boundary;
          boundary_depth = depth;
        })
        best in
    if is_blob child
    then ok best
    else if ltb spillover_target_child_bytes (subtree_footprint child).bytes
    then into best'
    else ok best'

-- `collect_victim_candidates`, with `visit_child_edge` of each child, at a depth below the path.
unfoldable pub collect_victim_candidates :
    Node → List Edge → ℕ → Option VictimCandidate → Outcome (Option VictimCandidate)
collect_victim_candidates (empty_root slot) path depth best = ok best
collect_victim_candidates (leaf slot l) path depth best = ok best
collect_victim_candidates (prefix slot bytes child) path depth best =
    let path' = path ++ (below_prefix ∷ []) in
    let depth' = depth + length bytes in
    visit_child_edge child path' (last_is_slash bytes) depth' best
      (collect_victim_candidates child path' depth')
collect_victim_candidates (inner slot n children) path depth best = pairs_of n >>= λ cells.
    visit_children
      (λ b best'.
        let path' = path ++ (at_byte b ∷ []) in
        visit_child_edge (children b) path' (b == 47) (depth + 1) best'
          (collect_victim_candidates (children b) path' (depth + 1)))
      cells best
collect_victim_candidates (blob_node slot bytes guid) path depth best = ok best

unfoldable pub pick_victim_subtree : Node → Outcome VictimCandidate
pick_victim_subtree t = collect_victim_candidates t [] 0 none >>= λ o. elim o [
  | none ↦ err (not_yet_implemented "engine::walker::spillover")
  | some c ↦ ok c
]
