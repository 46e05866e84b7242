-- ===== src/Engine/Inner.antt =====
-- The four inner nodes: layout/nodes.rs, and find, update, add and grow of engine/walker/writers.rs.
-- The cells of `keys` and `children` of a Node4 or Node16 are a list of pairs, up to `count`.
pub mod Finds
pub mod Tables
pub mod Adds
pub mod Updates
use artisan.Prelude.{
  ℕ, zero, suc, ◌+◌, ◌-◌, ◌≤◌, Bool, true, false, Option, none, some, List, [], ◌∷◌, ◌++◌, ltb, leb,
  ◌==◌, if◌then◌else◌, length, replicate, get_or, set, min, map,
}
use artisan.Errors.{Error, node_corrupt, Outcome, ok, err, panic, out_of_fuel, ◌>>=◌}
use artisan.Layout.Node.{NodeType, node4, node16, node48, node256}
use artisan.Engine.Allocator.{Allocator}

abbrev pub Cell : Type 0
Cell = ℕ × ℕ

-- `index` is 0 at a byte without a child, or one more than its place in `children`; a place or a
-- child of 0 is free.
pub data Inner : Type 0 where
  cells4 : List Cell → Inner
  cells16 : List Cell → Inner
  table48 : (count : ℕ) (index : ℕ → ℕ) (children : List ℕ) → Inner
  table256 : (count : ℕ) (children : ℕ → ℕ) → Inner

abbrev pub inner_type : Inner → NodeType
inner_type (cells4 cells) = node4
inner_type (cells16 cells) = node16
inner_type (table48 count index children) = node48
inner_type (table256 count children) = node256

abbrev pub corrupt : {A : Type 0} → Outcome A
corrupt = err (node_corrupt "engine::walker" none none)

-- The search of a Node4 stops at a greater key.
abbrev pub find_sorted : ℕ → List Cell → Option ℕ
find_sorted byte [] = none
find_sorted byte ((k, c) ∷ cells) =
    if k == byte then some c else if ltb byte k then none else find_sorted byte cells

-- `node16_find_byte`
abbrev pub find_byte : ℕ → List Cell → Option ℕ
find_byte byte [] = none
find_byte byte ((k, c) ∷ cells) = if k == byte then some c else find_byte byte cells

-- A place beyond `children` has the answer `beyond`: an error in a lookup, a panic in a writer.
unfoldable pub inner_find_child : Outcome (Option ℕ) → Inner → ℕ → Outcome (Option ℕ)
inner_find_child beyond (cells4 cells) byte = ok (find_sorted byte cells)
inner_find_child beyond (cells16 cells) byte = ok (find_byte byte cells)
inner_find_child beyond (table48 count index children) byte =
    if index byte == 0
    then ok none
    else if leb 48 (index byte - 1)
    then beyond
    else ok (some (get_or children (index byte - 1) 0))
inner_find_child beyond (table256 count children) byte =
    if children byte == 0 then ok none else ok (some (children byte))

abbrev pub put_at {ℓ} : {A : Type ℓ} → (ℕ → A) → ℕ → A → ℕ → A
put_at f i v j = if j == i then v else f j

abbrev pub update_cell : ℕ → ℕ → List Cell → Outcome (List Cell)
update_cell byte child [] = corrupt
update_cell byte child ((k, c) ∷ cells) =
    let rest = update_cell byte child cells in
    if k == byte then ok ((k, child) ∷ cells) else (rest >>= λ cs. ok ((k, c) ∷ cs))

unfoldable pub inner_update_child : Inner → ℕ → ℕ → Outcome Inner
inner_update_child (cells4 cells) byte child = update_cell byte child cells >>= λ cs. ok (cells4 cs)
inner_update_child (cells16 cells) byte child =
    update_cell byte child cells >>= λ cs. ok (cells16 cs)
inner_update_child (table48 count index children) byte child =
    if index byte == 0
    then corrupt
    else if leb 48 (index byte - 1)
    then panic
    else ok (table48 count index (set children (index byte - 1) child))
inner_update_child (table256 count children) byte child =
    ok (table256 count (put_at children byte child))

-- `node4_insert_sorted`, `node16_insert_sorted`: in front of the first greater key.
abbrev pub insert_sorted : ℕ → ℕ → List Cell → List Cell
insert_sorted byte child [] = (byte, child) ∷ []
insert_sorted byte child ((k, c) ∷ cells) =
    if ltb byte k then (byte, child) ∷ (k, c) ∷ cells else (k, c) ∷ insert_sorted byte child cells

-- The first free place.
abbrev pub free_place : ℕ → List ℕ → Option ℕ
free_place i [] = none
free_place i (c ∷ cs) = if c == 0 then some i else free_place (i + 1) cs

unfoldable pub node48_insert : ℕ → (ℕ → ℕ) → List ℕ → ℕ → ℕ → Outcome Inner
node48_insert count index children byte child =
    if index byte == 0
    then elim (free_place 0 children) [
      | none ↦ corrupt
      | some i ↦ ok (table48 (count + 1) (put_at index byte (i + 1)) (set children i child))
    ]
    else corrupt

unfoldable pub node256_insert : ℕ → (ℕ → ℕ) → ℕ → ℕ → Outcome Inner
node256_insert count children byte child =
    if children byte == 0
    then ok (table256 (min (count + 1) 255) (put_at children byte child))
    else corrupt

-- `grow_node16_to_node48`: the place of a key is its place among the cells.
abbrev pub index_cells : ℕ → List Cell → (ℕ → ℕ) → ℕ → ℕ
index_cells i [] index = index
index_cells i ((k, c) ∷ cells) index = index_cells (i + 1) cells (put_at index k (i + 1))

abbrev pub children_48 : List Cell → List ℕ
children_48 cells = map (λ (k, c). c) cells ++ replicate (48 - length cells) 0

-- `grow_node48_to_node256`
abbrev pub child_48 : (ℕ → ℕ) → List ℕ → ℕ → ℕ
child_48 index children byte = if index byte == 0 then 0 else get_or children (index byte - 1) 0

abbrev pub count_below : ℕ → (ℕ → ℕ) → ℕ
count_below zero index = 0
count_below (suc byte) index = count_below byte index + (if index byte == 0 then 0 else 1)

module _ {S : Type 0} (a : Allocator S) where
  -- `alloc_node` of the next type, and `free_node` of the old slot.
  unfoldable pub regrow : NodeType → ℕ → S → Outcome (ℕ × S)
  regrow next old_slot s = do
    (slot, s1) ← a.alloc_node next s
    s2 ← a.free_node old_slot s1
    ok (slot, s2)

  unfoldable pub add_48 : ℕ → ℕ → (ℕ → ℕ) → List ℕ → ℕ → ℕ → S → Outcome ((ℕ × Inner) × S)
  add_48 slot count index children byte child s =
      if ltb count 48
      then (do n ← node48_insert count index children byte child; ok ((slot, n), s))
      else (do
        (slot256, s') ← regrow node256 slot s
        n ← node256_insert (min (count_below 256 index) 255) (child_48 index children) byte child
        ok ((slot256, n), s'))

  unfoldable pub add_16 : ℕ → List Cell → ℕ → ℕ → S → Outcome ((ℕ × Inner) × S)
  unfolding add_48
  add_16 slot cells byte child s =
      if ltb (length cells) 16
      then ok ((slot, cells16 (insert_sorted byte child cells)), s)
      else (do
        (slot48, s') ← regrow node48 slot s
        add_48 slot48 (length cells) (index_cells 0 cells (λ b. 0)) (children_48 cells) byte child
            s')

  unfoldable pub inner_add_child : ℕ → Inner → ℕ → ℕ → S → Outcome ((ℕ × Inner) × S)
  unfolding add_16
  inner_add_child slot (cells4 cells) byte child s =
      if ltb (length cells) 4
      then ok ((slot, cells4 (insert_sorted byte child cells)), s)
      else (do (slot16, s') ← regrow node16 slot s; add_16 slot16 cells byte child s')
  inner_add_child slot (cells16 cells) byte child s = add_16 slot cells byte child s
  inner_add_child slot (table48 count index children) byte child s =
      add_48 slot count index children byte child s
  inner_add_child slot (table256 count children) byte child s = do
    n ← node256_insert count children byte child
    ok ((slot, n), s)
