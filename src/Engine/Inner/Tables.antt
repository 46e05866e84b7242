-- ===== src/Engine/Inner/Tables.antt =====
-- The index of a Node48: the one a Node16 grows into, and a place more.
use artisan.Prelude.{
  ℕ, zero, suc, ◌+◌, ◌-◌, ◌≤◌, ◌<◌, ◌≡◌, refl, ap, ◌∙◌, none, some, List, [], ◌∷◌, ◌++◌, ◌==◌,
  if◌then◌else◌, length, replicate, get_or, set, map, arith, Bool-cases, inl, inr,
}
use artisan.Engine.Inner.{Cell, put_at, find_byte, free_place, index_cells, children_48}
use artisan.Engine.Inner.Finds.{Before, Ascending, zeros, IsTable}

-- One more than the place of the key, or 0.
abbrev rank : ℕ → List Cell → ℕ
rank b [] = 0
rank b ((k, c) ∷ cells) = if k == b then 1 else if rank b cells == 0 then 0 else suc (rank b cells)

rank-Before : (b : ℕ) (cells : List Cell) → Before b cells → rank b cells ≡ 0
rank-Before b [] h = refl
rank-Before b ((k, c) ∷ cells) h = ground (arith, rank-Before b cells)

index_cells-rank :
    (i : ℕ) (cells : List Cell) (index : ℕ → ℕ) (b : ℕ)
    → Ascending cells
    → index_cells i cells index b ≡ (if rank b cells == 0 then index b else i + rank b cells)
index_cells-rank i [] index b h = refl
index_cells-rank i ((k, c) ∷ cells) index b h =
    index_cells-rank (i + 1) cells (put_at index k (i + 1)) b h.1.1
    ∙ ground (arith, rank-Before b cells)

-- The children of the cells, behind which `z` free places stand.
abbrev places : List Cell → ℕ → List ℕ
places cells z = map (λ (k, c). c) cells ++ replicate z 0

rank_bound : (b : ℕ) (cells : List Cell) → rank b cells ≤ length cells
rank_bound b [] = omega arith
rank_bound b ((k, c) ∷ cells) = ground (arith, rank_bound b cells)

rank_find :
    (b : ℕ) (cells : List Cell) (z : ℕ)
    → (if rank b cells == 0 then none else some (get_or (places cells z) (rank b cells - 1) 0))
      ≡ find_byte b cells
rank_find b [] z = refl
rank_find b ((k, c) ∷ cells) z = ground (arith, rank_find b cells z)

rank_taken :
    (b : ℕ) (cells : List Cell) (z : ℕ)
    → Ascending cells
    → 1 ≤ rank b cells
    → 1 ≤ get_or (places cells z) (rank b cells - 1) 0
rank_taken b [] z h r = absurd (omega arith)
rank_taken b ((k, c) ∷ cells) z h r = ground (arith, rank_taken b cells z)

rank_apart :
    (b b' : ℕ) (cells : List Cell) → 1 ≤ rank b cells → rank b cells ≡ rank b' cells → b ≡ b'
rank_apart b b' [] h e = absurd (omega arith)
rank_apart b b' ((k, c) ∷ cells) h e = ground (arith, rank_apart b b' cells)

length-replicate : (z : ℕ) → length (replicate {A = ℕ} z 0) ≡ z
length-replicate zero = refl
length-replicate (suc z) = ap suc (length-replicate z)

zeros-replicate : (z : ℕ) → zeros (replicate z 0) ≡ z
zeros-replicate zero = refl
zeros-replicate (suc z) = ground (arith, zeros-replicate z)

length-places : (cells : List Cell) (z : ℕ) → length (places cells z) ≡ length cells + z
length-places [] z = length-replicate z ∙ omega arith
length-places ((k, c) ∷ cells) z = ground (arith, length-places cells z)

zeros-places : (cells : List Cell) (z : ℕ) → Ascending cells → zeros (places cells z) ≡ z
zeros-places [] z h = zeros-replicate z
zeros-places ((k, c) ∷ cells) z h = ground (arith, zeros-places cells z)

-- The table a Node16 grows into.
abbrev Grown : List Cell → (ℕ → ℕ) → Type 0
Grown cells index =
    (IsTable (length cells) index (children_48 cells))
    × ((b : ℕ)
        → (if index b == 0 then none else some (get_or (children_48 cells) (index b - 1) 0))
          ≡ find_byte b cells)

pub index_cells-Grown :
    (cells : List Cell)
    → Ascending cells
    → length cells ≤ 48
    → Grown cells (index_cells 0 cells (λ b. 0))
index_cells-Grown cells h l =
    let e : (b : ℕ) → index_cells 0 cells (λ b. 0) b ≡ rank b cells =
      λ b. index_cells-rank 0 cells (λ b. 0) b h ∙ ground arith in
    (
      record {
        places = λ b. rw (e b) (ground (arith, rank_bound b cells));
        taken = λ b. rw (e b) (rank_taken b cells (48 - length cells) h);
        apart = λ b b'. rw (e b, e b') (rank_apart b b' cells);
        size = length-places cells (48 - length cells) ∙ omega arith;
        counted =
            ap (λ n. length cells + n) (zeros-places cells (48 - length cells) h) ∙ omega arith;
      },
      λ b. rw (e b) (rank_find b cells (48 - length cells)),
    )

pub get_or-set :
    (cs : List ℕ) (i j v : ℕ)
    → i < length cs
    → get_or (set cs i v) j 0 ≡ (if j == i then v else get_or cs j 0)
get_or-set [] i j v h = absurd (omega arith)
get_or-set (c ∷ cs) zero zero v h = ground arith
get_or-set (c ∷ cs) zero (suc j) v h = ground arith
get_or-set (c ∷ cs) (suc i) zero v h = ground arith
get_or-set (c ∷ cs) (suc i) (suc j) v h = ground (arith, get_or-set cs i j v)

pub zeros-set :
    (cs : List ℕ) (i v : ℕ)
    → i < length cs
    → get_or cs i 0 ≡ 0
    → 1 ≤ v
    → suc (zeros (set cs i v)) ≡ zeros cs
zeros-set [] i v h e p = absurd (omega arith)
zeros-set (c ∷ cs) zero v h e p = ground arith
zeros-set (c ∷ cs) (suc i) v h e p = ground (arith, zeros-set cs i v)

abbrev Vacant : ℕ → List ℕ → Type 0
Vacant i cs = (j : ℕ) × ((free_place i cs ≡ some (i + j)) × ((j < length cs) × (get_or cs j 0 ≡ 0)))

pub free_place-Vacant : (i : ℕ) (cs : List ℕ) → 1 ≤ zeros cs → Vacant i cs
free_place-Vacant i [] h = absurd (omega arith)
free_place-Vacant i (c ∷ cs) h = elim (Bool-cases (c == 0)) [
  | inl e ↦ (0, (rw e (ap some (omega arith)), (omega arith, ground arith)))
  | inr e ↦
      let (j, (f, (l, g))) = free_place-Vacant (i + 1) cs (ground arith) in
      (suc j, (rw (e, f) (ap some (omega arith)), (omega arith, g)))
]
