-- ===== src/Engine/Inner/Adds.antt =====
-- A child more, and another child for a byte, in each of the four inner nodes.
use artisan.Prelude.{
  ℕ, suc, ◌+◌, ◌-◌, ◌≤◌, ◌<◌, ◌≡◌, ◌≢◌, ◌⊎◌, inl, inr, Bool, refl, sym, ap, ◌∙◌, true, false, none,
  some, List, ltb, ◌==◌, if◌then◌else◌, length, get_or, set, min, arith, length-set,
}
use mathlib.Core.Bool.{true≢false}
use artisan.Errors.{ok, Returns, returned, Returns-bind, Returns-if, Returns-weaken, Returns-value}
use artisan.Layout.Node.{NodeType, node4, node16, node48, node256}
use artisan.Engine.Allocator.{Allocator, IsRefusal}
use artisan.Engine.Inner.{
  Cell, Inner, inner_type, cells4, cells16, table48, table256, find_byte, put_at, insert_sorted,
  free_place, node48_insert, node256_insert, index_cells, children_48, child_48, count_below,
  regrow, add_48, add_16, inner_add_child,
}
use artisan.Engine.Inner.Finds.{
  Ascending, IsTable, IsInner, child_of, Ascending-insert, find-insert, length-insert,
}
use artisan.Engine.Inner.Tables.{index_cells-Grown, free_place-Vacant, get_or-set, zeros-set}

-- `n'` has the child `c` at `b`, and is `n` at the other bytes.
abbrev pub Puts : Inner → ℕ → ℕ → Inner → Type 0
Puts n b c n' =
    IsInner n' × ((b' : ℕ) → child_of n' b' ≡ (if b == b' then some c else child_of n b'))

module _ (count : ℕ) (index : ℕ → ℕ) (children : List ℕ) (b c j : ℕ)
    (h : IsTable count index children) (e : index b ≡ 0) (p : 1 ≤ c) (l : j < length children)
    (g : get_or children j 0 ≡ 0) where
  free : (b' : ℕ) → index b' ≢ suc j
  free b' i =
      let t : 1 ≤ get_or children (suc j - 1) 0 = rw (sym i) (h.taken b' (omega (arith, i))) in
      let k : suc j - 1 ≡ j = omega arith in
      let u : 1 ≤ get_or children j 0 = rw (sym k) t in absurd (omega (arith, g))

  at_free : (b' : ℕ) → b' ≡ b → get_or (set children j c) (j + 1 - 1) 0 ≡ c
  at_free b' i =
      let k : j + 1 - 1 ≡ j = omega arith in rw k (ground (arith, get_or-set children j j c l))

  elsewhere :
      (b' : ℕ)
      → 1 ≤ index b'
      → get_or (set children j c) (index b' - 1) 0 ≡ get_or children (index b' - 1) 0
  elsewhere b' t = ground (arith, get_or-set children j (index b' - 1) c l, free b')

  -- A table with the child `c` at the free place `j`.
  filled_IsTable : IsTable (count + 1) (put_at index b (j + 1)) (set children j c)
  filled_IsTable = record {
    places = λ b'. ground (arith, h.places b', h.size);
    taken = λ b'. ground (arith, h.taken b', elsewhere b', at_free b');
    apart = λ b1 b2. ground (arith, h.apart b1 b2, free b1, free b2);
    size = length-set children j c ∙ h.size;
    counted = ground (arith, zeros-set children j c l g p, h.counted);
  }

  filled_child :
      (b' : ℕ)
      → child_of (table48 (count + 1) (put_at index b (j + 1)) (set children j c)) b'
        ≡ (if b == b' then some c else child_of (table48 count index children) b')
  filled_child b' = ground (arith, elsewhere b', at_free b')

node48_insert-Puts :
    (count : ℕ) (index : ℕ → ℕ) (children : List ℕ) (b c : ℕ)
    → IsTable count index children
    → count < 48
    → index b ≡ 0
    → 1 ≤ c
    → (n : Inner) × ((node48_insert count index children b c ≡ ok n)
        × Puts (table48 count index children) b c n
        × (inner_type n ≡ node48))
unfolding node48_insert
node48_insert-Puts count index children b c h l e p =
    let (j, (f, (i, g))) = free_place-Vacant 0 children (ground (arith, h.counted)) in
    let f0 : free_place 0 children ≡ some j = f ∙ ap some (omega arith) in
    (
      table48 (count + 1) (put_at index b (j + 1)) (set children j c),
      (
        rw (e, f0) refl,
        (
          filled_IsTable count index children b c j h e p i g,
          filled_child count index children b c j h e p i g,
        ),
        refl,
      ),
    )

node256_insert-Puts :
    (count : ℕ) (children : ℕ → ℕ) (b c : ℕ)
    → children b ≡ 0
    → 1 ≤ c
    → (n : Inner) × ((node256_insert count children b c ≡ ok n)
        × Puts (table256 count children) b c n
        × (inner_type n ≡ node256))
unfolding node256_insert
node256_insert-Puts count children b c e p = (
  table256 (min (count + 1) 255) (put_at children b c),
  (rw e refl, (tt, λ b'. ground arith), refl),
)

child_48-child :
    (count : ℕ) (index : ℕ → ℕ) (children : List ℕ)
    → IsTable count index children
    → (b : ℕ)
    → (if child_48 index children b == 0 then none else some (child_48 index children b))
      ≡ child_of (table48 count index children) b
child_48-child count index children h b = ground (arith, h.taken b)

abbrev pub has_room : Inner → Bool
has_room (cells4 cells) = ltb (length cells) 4
has_room (cells16 cells) = ltb (length cells) 16
has_room (table48 count index children) = ltb count 48
has_room (table256 count children) = true

-- The type that takes over from a full one.
abbrev pub next_type : NodeType → NodeType
next_type node4 = node16
next_type node16 = node48
next_type _ = node256

module _ {S : Type 0} (a : Allocator S) where
  -- The allocator gives a slot for a node of the type `t`, and then takes the old slot back.
  abbrev pub Regrown : NodeType → ℕ → S → ℕ × S → Type 0
  Regrown t slot s (slot', s') =
      (s1 : S) × (a.alloc_node t s ≡ ok (slot', s1)) × (a.free_node slot s1 ≡ ok s')

  -- A node with room stays in its slot, and the space of the blob is as before.
  pub record Stays (slot : ℕ) (n : Inner) (s : S) (slot' : ℕ) (n' : Inner) (s' : S) : Type 0 where
    pub room : has_room n ≡ true
    pub same_slot : slot' ≡ slot
    pub same_type : inner_type n' ≡ inner_type n
    pub same_space : s' ≡ s

  -- A full node moves to a slot for a node of the next type.
  pub record Grows (slot : ℕ) (n : Inner) (s : S) (slot' : ℕ) (n' : Inner) (s' : S) : Type 0 where
    pub full : has_room n ≡ false
    pub larger : inner_type n' ≡ next_type (inner_type n)
    pub regrown : Regrown (next_type (inner_type n)) slot s (slot', s')

  abbrev pub Placed : ℕ → Inner → S → ℕ → Inner → S → Type 0
  Placed slot n s slot' n' s' = Stays slot n s slot' n' s' ⊎ Grows slot n s slot' n' s'

  -- What an inner node promises after `inner_add_child`: a slot, the child, and where it stands.
  abbrev pub Added : ℕ → Inner → ℕ → ℕ → S → (ℕ × Inner) × S → Type 0
  Added slot n b c s ((slot', n'), s') = (1 ≤ slot') × Puts n b c n' × Placed slot n s slot' n' s'

  -- A node that is regrown with room to spare, and then stays.
  Regrown-Stays :
      (slot slot1 slot2 : ℕ) (n n1 n2 : Inner) (s s1 s2 : S)
      → has_room n ≡ false
      → inner_type n1 ≡ next_type (inner_type n)
      → Regrown (next_type (inner_type n)) slot s (slot1, s1)
      → has_room n1 ≡ true
      → Placed slot1 n1 s1 slot2 n2 s2
      → Placed slot n s slot2 n2 s2
  Regrown-Stays slot slot1 slot2 n n1 n2 s s1 s2 full t (u, e, f) room (inl p) = inr (record {
    full = full;
    larger = p.same_type ∙ t;
    regrown = (u, e ∙ ap (λ x. ok (x, u)) (sym p.same_slot), f ∙ ap (λ x. ok x) (sym p.same_space));
  })
  Regrown-Stays slot slot1 slot2 n n1 n2 s s1 s2 full t g room (inr p) =
      absurd (true≢false (sym room ∙ p.full))

  regrow-Regrown :
      (t : NodeType) (slot : ℕ) (s : S)
      → Returns (λ (r : ℕ × S). (1 ≤ r.0) × Regrown t slot s r) IsRefusal (regrow a t slot s)
  unfolding regrow
  regrow-Regrown t slot s =
      Returns-bind (Returns-value (a.alloc_node-slot t s)) (λ (slot', s1) (h, e).
        Returns-bind (Returns-value (a.free_node-refusal slot s1))
          (λ s2 (u, f). returned (h, (s1, e, f))))

  add_48-Added :
      (slot count : ℕ) (index : ℕ → ℕ) (children : List ℕ) (b c : ℕ) (s : S)
      → IsTable count index children
      → index b ≡ 0
      → 1 ≤ c
      → 1 ≤ slot
      → Returns
          (Added slot (table48 count index children) b c s)
          IsRefusal
          (add_48 a slot count index children b c s)
  unfolding add_48
  add_48-Added slot count index children b c s h e p l =
      Returns-if
        (λ (t : ltb count 48 ≡ true).
          let (n, (f, g, y)) = node48_insert-Puts count index children b c h (ground arith) e p in
          rw f (
            returned (
              l,
              g,
              inl (record { room = t; same_slot = refl; same_type = y; same_space = refl }),
            )))
        (λ (t : ltb count 48 ≡ false).
          Returns-bind (regrow-Regrown node256 slot s) (λ (slot', s') (q, z).
            let (n, (f, (i, g), y)) =
              node256_insert-Puts (min (count_below 256 index) 255) (child_48 index children) b c
                (rw e refl) p in
            rw f (
              returned (
                q,
                (i, λ b'. g b' ∙ rw (child_48-child count index children h b') refl),
                inr (record { full = t; larger = y; regrown = z }),
              ))))

  add_16-Added :
      (slot : ℕ) (cells : List Cell) (b c : ℕ) (s : S)
      → Ascending cells
      → length cells ≤ 16
      → find_byte b cells ≡ none
      → 1 ≤ c
      → 1 ≤ slot
      → Returns (Added slot (cells16 cells) b c s) IsRefusal (add_16 a slot cells b c s)
  unfolding add_16
  add_16-Added slot cells b c s h k e p l =
      Returns-if
        (λ (t : ltb (length cells) 16 ≡ true).
          let r : Puts (cells16 cells) b c (cells16 (insert_sorted b c cells)) = (
            (Ascending-insert b c cells h p e, ground (arith, length-insert b c cells)),
            λ b'. find-insert b c b' cells e,
          ) in
          returned (
            l,
            r,
            inl (record { room = t; same_slot = refl; same_type = refl; same_space = refl }),
          ))
        (λ (t : ltb (length cells) 16 ≡ false).
          Returns-bind (regrow-Regrown node48 slot s) (λ (slot', s') (q, z).
            let (i, f) = index_cells-Grown cells h (omega arith) in
            let n1 = table48 (length cells) (index_cells 0 cells (λ x. 0)) (children_48 cells) in
            Returns-weaken
              (add_48-Added slot' (length cells) (index_cells 0 cells (λ x. 0)) (children_48 cells)
                b c s' i (ground (arith, f b, e)) p q)
              (λ ((slot2, n), s2) (q2, (i2, g2), y). (
                q2,
                (i2, λ b'. g2 b' ∙ rw (f b') refl),
                Regrown-Stays slot slot' slot2 (cells16 cells) n1 n s s' s2 t refl z (ground arith)
                    y,
              ))))

  -- A child for a byte that has none: unless the allocator refuses, a well-formed inner node of any
  -- of the four types keeps its other children and has the new one. A node with room stays in its
  -- slot, with its type, and the space of the blob is as before. A full node becomes one of the next
  -- larger type, in the slot that the allocator has given for it, and its old slot has been freed.
  pub inner_add_child-Added :
      (slot : ℕ) (n : Inner) (b c : ℕ) (s : S)
      → IsInner n
      → child_of n b ≡ none
      → 1 ≤ c
      → 1 ≤ slot
      → Returns (Added slot n b c s) IsRefusal (inner_add_child a slot n b c s)
  unfolding inner_add_child
  inner_add_child-Added slot (cells4 cells) b c s (h, k) e p l =
      Returns-if
        (λ (t : ltb (length cells) 4 ≡ true).
          let r : Puts (cells4 cells) b c (cells4 (insert_sorted b c cells)) = (
            (Ascending-insert b c cells h p e, ground (arith, length-insert b c cells)),
            λ b'. find-insert b c b' cells e,
          ) in
          returned (
            l,
            r,
            inl (record { room = t; same_slot = refl; same_type = refl; same_space = refl }),
          ))
        (λ (t : ltb (length cells) 4 ≡ false).
          Returns-bind (regrow-Regrown node16 slot s) (λ (slot', s') (q, z).
            Returns-weaken (add_16-Added slot' cells b c s' h (omega (arith, k)) e p q)
              (λ ((slot2, n), s2) (q2, g, y). (
                q2,
                g,
                Regrown-Stays slot slot' slot2 (cells4 cells) (cells16 cells) n s s' s2 t refl z
                    (ground (arith, k)) y,
              ))))
  inner_add_child-Added slot (cells16 cells) b c s (h, k) e p l =
      add_16-Added slot cells b c s h k e p l
  inner_add_child-Added slot (table48 count index children) b c s h e p l =
      add_48-Added slot count index children b c s h (ground (arith, e)) p l
  inner_add_child-Added slot (table256 count children) b c s h e p l =
      let (n, (f, g, y)) = node256_insert-Puts count children b c (ground (arith, e)) p in
      rw f (
        returned
          (l, g, inl (record { room = refl; same_slot = refl; same_type = y; same_space = refl })))
