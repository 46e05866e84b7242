-- ===== src/Engine/Inner/Finds.antt =====
-- The four inner nodes are one finite map from bytes to children.
use artisan.Prelude.{
  ℕ, ◌+◌, ◌-◌, ◌≤◌, ◌<◌, ◌≡◌, refl, ap, Option, none, some, List, [], ◌∷◌, ◌==◌, if◌then◌else◌,
  length, get_or, arith,
}
use artisan.Errors.{Outcome, ok}
use artisan.Engine.Inner.{
  Cell, Inner, cells4, cells16, table48, table256, find_sorted, find_byte, inner_find_child,
  insert_sorted,
}

abbrev pub Before : ℕ → List Cell → Type 0
Before k [] = Unit {0}
Before k ((k', c) ∷ cells) = (k < k') × Before k cells

-- The keys ascend, and every cell has a child.
abbrev pub Ascending : List Cell → Type 0
Ascending [] = Unit {0}
Ascending ((k, c) ∷ cells) = (1 ≤ c) × (Before k cells × Ascending cells)

abbrev pub zeros : List ℕ → ℕ
zeros [] = 0
zeros (c ∷ cs) = (if c == 0 then 1 else 0) + zeros cs

pub record IsTable (count : ℕ) (index : ℕ → ℕ) (children : List ℕ) : Type 0 where
  pub places : (b : ℕ) → index b ≤ 48
  pub taken : (b : ℕ) → 1 ≤ index b → 1 ≤ get_or children (index b - 1) 0
  pub apart : (b b' : ℕ) → 1 ≤ index b → index b ≡ index b' → b ≡ b'
  pub size : length children ≡ 48
  pub counted : count + zeros children ≡ 48

abbrev pub IsInner : Inner → Type 0
IsInner (cells4 cells) = Ascending cells × (length cells ≤ 4)
IsInner (cells16 cells) = Ascending cells × (length cells ≤ 16)
IsInner (table48 count index children) = IsTable count index children
IsInner (table256 count children) = Unit {0}

-- The child of a byte.
abbrev pub child_of : Inner → ℕ → Option ℕ
child_of (cells4 cells) b = find_byte b cells
child_of (cells16 cells) b = find_byte b cells
child_of (table48 count index children) b =
    if index b == 0 then none else some (get_or children (index b - 1) 0)
child_of (table256 count children) b = if children b == 0 then none else some (children b)

Before-lt : (k k' : ℕ) (cells : List Cell) → k < k' → Before k' cells → Before k cells
Before-lt k k' [] h b = tt
Before-lt k k' ((l, c) ∷ cells) h b = (omega (arith, b.0), Before-lt k k' cells h b.1)

find-Before : (b : ℕ) (cells : List Cell) → Before b cells → find_byte b cells ≡ none
find-Before b [] h = refl
find-Before b ((k, c) ∷ cells) h = ground (arith, find-Before b cells)

find_sorted-byte :
    (b : ℕ) (cells : List Cell) → Ascending cells → find_sorted b cells ≡ find_byte b cells
find_sorted-byte b [] h = refl
find_sorted-byte b ((k, c) ∷ cells) h =
    ground (arith, find_sorted-byte b cells, find-Before b cells, Before-lt b k cells)

pub inner_find_child-of :
    (beyond : Outcome (Option ℕ)) (n : Inner) (b : ℕ)
    → IsInner n
    → inner_find_child beyond n b ≡ ok (child_of n b)
unfolding inner_find_child
inner_find_child-of beyond (cells4 cells) b h = ap ok (find_sorted-byte b cells h.0)
inner_find_child-of beyond (cells16 cells) b h = refl
inner_find_child-of beyond (table48 count index children) b h = ground (arith, h.places b)
inner_find_child-of beyond (table256 count children) b h = ground arith

Before-insert :
    (k b c : ℕ) (cells : List Cell) → k < b → Before k cells → Before k (insert_sorted b c cells)
Before-insert k b c [] h s = (h, tt)
Before-insert k b c ((l, d) ∷ cells) h s = ground (arith, Before-insert k b c cells)

pub Ascending-insert :
    (b c : ℕ) (cells : List Cell)
    → Ascending cells
    → 1 ≤ c
    → find_byte b cells ≡ none
    → Ascending (insert_sorted b c cells)
Ascending-insert b c [] h p e = (p, (tt, tt))
Ascending-insert b c ((k, d) ∷ cells) h p e =
    ground (arith, Ascending-insert b c cells, Before-insert k b c cells, Before-lt b k cells)

pub find-insert :
    (b c b' : ℕ) (cells : List Cell)
    → find_byte b cells ≡ none
    → find_byte b' (insert_sorted b c cells) ≡ (if b == b' then some c else find_byte b' cells)
find-insert b c b' [] e = refl
find-insert b c b' ((k, d) ∷ cells) e = ground (arith, find-insert b c b' cells)

pub length-insert :
    (b c : ℕ) (cells : List Cell) → length (insert_sorted b c cells) ≡ length cells + 1
length-insert b c [] = refl
length-insert b c ((k, d) ∷ cells) = ground (arith, length-insert b c cells)
