-- ===== src/Engine/Migrate/Copied.antt =====
-- What a copy of a tree is, and the copies of the children of an inner node.
use artisan.Prelude.{
  ℕ, ◌≤◌, ◌<◌, ◌≡◌, Bool, true, false, ◌||◌, Option, none, some, List, [], ◌∷◌, ◌==◌, length,
}
use artisan.Engine.Inner.{Cell}
use artisan.Engine.Inner.Finds.{Before, Ascending, child_of}
use artisan.Engine.Tree.{Node, empty_root, leaf, prefix, inner, blob_node, not_found}
use artisan.Engine.Tree.Finds.{IsTree, look}
use artisan.Engine.Tree.Keyed.{Keyed}
use artisan.Engine.Migrate.{Survivors, slots, at}

-- Bytes, as a key holds them.
abbrev pub Bytes : List ℕ → Type 0
Bytes [] = Unit {0}
Bytes (x ∷ xs) = (x < 256) × Bytes xs

-- No leaf is a tombstone.
abbrev pub Live : Node → Type 0
Live (empty_root slot) = Unit {0}
Live (leaf slot l) = l.tombstone ≡ false
Live (prefix slot bytes child) = Live child
Live (inner slot n children) = (b c : ℕ) → b < 256 → child_of n b ≡ some c → Live (children b)
Live (blob_node slot bytes guid) = Unit {0}

-- A copy of `t`: the lookups of all keys are the same. Without the filter, the tombstones are too.
pub record IsCopy (filter : Bool) (t n : Node) : Type 0 where
  pub tree : IsTree n
  pub looks : (w : List ℕ) (d : ℕ) → Bytes w → look n w d ≡ look t w d
  pub keyed : (path : List ℕ) → Keyed path t → Keyed path n
  pub live : filter ≡ true → Live n
  pub buried : filter ≡ false → Live n → Live t

-- No copy is made of a tree with nothing to be found, and only with the filter.
pub record IsDead (filter : Bool) (t : Node) : Type 0 where
  pub filtered : filter ≡ true
  pub nothing : (w : List ℕ) (d : ℕ) → Bytes w → look t w d ≡ not_found

abbrev pub Copied : {S : Type 0} → Bool → Node → Option Node × S → Type 0
Copied filter t (none, s) = IsDead filter t
Copied filter t (some n, s) = IsCopy filter t n

-- What has become of one child, if there was one.
abbrev pub Same : Bool → Bool → Node → Option Node → Type 0
Same filter false t none = Unit {0}
Same filter false t (some n) = ⊥
Same filter true t none = IsDead filter t
Same filter true t (some n) = IsCopy filter t n

-- The copies ascend from `lo` on, and are those of the children for which `dom` holds.
abbrev pub Survive : Bool → (ℕ → Bool) → (ℕ → Node) → Survivors → Type 0
Survive filter dom children ss =
    Ascending (slots ss) × ((b : ℕ) → Same filter (dom b) (children b) (at ss b))

-- Whether a byte has a cell.
abbrev pub has_cell : List Cell → ℕ → Bool
has_cell [] b = false
has_cell ((k, c) ∷ cells) b = (k == b) || has_cell cells b

-- The copies, at most `bound` of them, ascend after each number that is `low`.
abbrev pub Kept :
    {S : Type 0} → Bool → (ℕ → Type 0) → ℕ → (ℕ → Bool) → (ℕ → Node) → Survivors × S → Type 0
Kept filter low bound dom children (ss, s) =
    Survive filter dom children ss
    × (((k : ℕ) → low k → Before k (slots ss)) × (length (slots ss) ≤ bound))
