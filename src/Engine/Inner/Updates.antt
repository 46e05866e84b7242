-- ===== src/Engine/Inner/Updates.antt =====
-- Another child for a byte, in each of the four inner nodes.
use artisan.Prelude.{
  ℕ, zero, suc, ◌-◌, ◌≤◌, ◌<◌, ◌≡◌, refl, ◌∙◌, some, List, [], ◌∷◌, ◌==◌, if◌then◌else◌, length,
  get_or, set, arith, length-set,
}
use artisan.Errors.{ok}
use artisan.Engine.Inner.{
  Cell, Inner, cells4, cells16, table48, table256, find_byte, put_at, update_cell,
  inner_update_child,
}
use artisan.Engine.Inner.Finds.{Ascending, Before, zeros, IsTable, IsInner, child_of}
use artisan.Engine.Inner.Tables.{get_or-set}
use artisan.Engine.Inner.Adds.{Puts}

-- The cells after `update_cell`.
abbrev changed : ℕ → ℕ → List Cell → List Cell
changed b c [] = []
changed b c ((k, d) ∷ cells) = if k == b then (k, c) ∷ cells else (k, d) ∷ changed b c cells

update_cell-changed :
    (b c d : ℕ) (cells : List Cell)
    → find_byte b cells ≡ some d
    → update_cell b c cells ≡ ok (changed b c cells)
update_cell-changed b c d [] e = absurd (cc e)
update_cell-changed b c d ((k, x) ∷ cells) e = ground (arith, update_cell-changed b c d cells)

Before-changed : (l b c : ℕ) (cells : List Cell) → Before l cells → Before l (changed b c cells)
Before-changed l b c [] h = tt
Before-changed l b c ((k, x) ∷ cells) h = ground (arith, Before-changed l b c cells)

Ascending-changed :
    (b c : ℕ) (cells : List Cell) → Ascending cells → 1 ≤ c → Ascending (changed b c cells)
Ascending-changed b c [] h p = tt
Ascending-changed b c ((k, x) ∷ cells) h p =
    ground (arith, Ascending-changed b c cells, Before-changed k b c cells)

length-changed : (b c : ℕ) (cells : List Cell) → length (changed b c cells) ≡ length cells
length-changed b c [] = refl
length-changed b c ((k, x) ∷ cells) = ground (arith, length-changed b c cells)

find-changed :
    (b c d b' : ℕ) (cells : List Cell)
    → find_byte b cells ≡ some d
    → find_byte b' (changed b c cells) ≡ (if b == b' then some c else find_byte b' cells)
find-changed b c d b' [] e = absurd (cc e)
find-changed b c d b' ((k, x) ∷ cells) e = ground (arith, find-changed b c d b' cells)

zeros-change : (cs : List ℕ) (i v : ℕ) → 1 ≤ get_or cs i 0 → 1 ≤ v → zeros (set cs i v) ≡ zeros cs
zeros-change [] i v h p = refl
zeros-change (c ∷ cs) zero v h p = ground arith
zeros-change (c ∷ cs) (suc i) v h p = ground (arith, zeros-change cs i v)

module _ (count : ℕ) (index : ℕ → ℕ) (children : List ℕ) (b c : ℕ)
    (h : IsTable count index children) (t : 1 ≤ index b) (p : 1 ≤ c) where
  inside : index b - 1 < length children
  inside = omega (arith, h.places b, h.size)

  children_set :
      (b' : ℕ)
      → 1 ≤ index b'
      → get_or (set children (index b - 1) c) (index b' - 1) 0
        ≡ (if b == b' then c else get_or children (index b' - 1) 0)
  children_set b' t' =
      ground (arith, get_or-set children (index b - 1) (index b' - 1) c inside, h.apart b b' t)

  changed_IsTable : IsTable count index (set children (index b - 1) c)
  changed_IsTable = record {
    places = h.places;
    taken = λ b'. ground (arith, h.taken b', children_set b');
    apart = h.apart;
    size = length-set children (index b - 1) c ∙ h.size;
    counted = ground (arith, zeros-change children (index b - 1) c (h.taken b t) p, h.counted);
  }

  changed_child :
      (b' : ℕ)
      → child_of (table48 count index (set children (index b - 1) c)) b'
        ≡ (if b == b' then some c else child_of (table48 count index children) b')
  changed_child b' = ground (arith, children_set b')

-- Another child for a byte that has one: a well-formed inner node of any of the four types takes it
-- without an error and keeps its other children.
pub inner_update_child-Puts :
    (n : Inner) (b c d : ℕ)
    → IsInner n
    → child_of n b ≡ some d
    → 1 ≤ c
    → (n' : Inner) × ((inner_update_child n b c ≡ ok n') × Puts n b c n')
unfolding inner_update_child
inner_update_child-Puts (cells4 cells) b c d (h, k) e p = (
  cells4 (changed b c cells),
  (
    rw (update_cell-changed b c d cells e) refl,
    (
      (Ascending-changed b c cells h p, rw (length-changed b c cells) k),
      λ b'. find-changed b c d b' cells e,
    ),
  ),
)
inner_update_child-Puts (cells16 cells) b c d (h, k) e p = (
  cells16 (changed b c cells),
  (
    rw (update_cell-changed b c d cells e) refl,
    (
      (Ascending-changed b c cells h p, rw (length-changed b c cells) k),
      λ b'. find-changed b c d b' cells e,
    ),
  ),
)
inner_update_child-Puts (table48 count index children) b c d h e p =
    let t : 1 ≤ index b = ground (arith, e) in
    (
      table48 count index (set children (index b - 1) c),
      (
        ground (arith, h.places b),
        (
          changed_IsTable count index children b c h t p,
          changed_child count index children b c h t p,
        ),
      ),
    )
inner_update_child-Puts (table256 count children) b c d h e p =
    (table256 count (put_at children b c), (refl, (tt, λ b'. ground arith)))
