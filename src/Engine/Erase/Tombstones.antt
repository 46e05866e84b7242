-- ===== src/Engine/Erase/Tombstones.antt =====
-- An erase buries the leaf of its key, and every node keeps its slot.
use artisan.Prelude.{
  ℕ, ◌+◌, ◌-◌, ◌^◌, ◌≤◌, ◌≡◌, refl, Bool, true, false, ◌&&◌, some, List, [], ◌∷◌, ltb,
  if◌then◌else◌, length, drop, get_elem?, arith, min, Bool-cases, Option-cases, inl, inr,
  length-drop, ◌++◌,
}
use artisan.Errors.{Error, panic, Returns, returned, Returns-bind, Returns-if}
use artisan.Engine.Allocator.{Allocator}
use artisan.Engine.Key.{user}
use artisan.Engine.Key.Terminated.{
  same, same_eq, starts, full, byte_at-full, eq_slice-full, range_eq-full,
}
use artisan.Engine.Inner.{Inner}
use artisan.Engine.Inner.Finds.{child_of, inner_find_child-of}
use artisan.Engine.Tree.{
  Leaf, Node, empty_root, leaf, prefix, inner, blob_node, slot_of, LookupResult, not_found, found,
  prefix_max_inline, blob_max_inline,
}
use artisan.Engine.Tree.Finds.{IsTree, look, get_elem?-inside, starts_length}
use artisan.Engine.Tree.Keyed.{Keyed}
use artisan.Engine.Insert.{Blob}
use artisan.Engine.Insert.Parents.{prefix_look}
use artisan.Engine.Erase.{
  EraseCondition, unchanged, subtree_gone, replaced, EraseStep, done, crossing, allows,
  erase_at_leaf, pass_prefix, pass_inner, erase_at_step,
}
use artisan.Engine.Erase.Kept.{inner_look, kept_children, kept_Keyed}

-- Whether an erase under the condition takes what was found.
abbrev pub takes : EraseCondition → LookupResult → Bool
takes c not_found = false
takes c (found value seq) = allows c seq
takes c (LookupResult.crossing guid depth) = false

-- The blob after an erase that took a leaf, or none.
abbrev pub counted : {S : Type 0} → Bool → Blob S → Blob S
counted m b =
    if m
    then record {
      space = b.space;
      tombstone_leaf_cnt = min (b.tombstone_leaf_cnt + 1) (2 ^ 32 - 1);
    }
    else b

abbrev pub Never : Error → Type 0
Never e = ⊥

abbrev pub Erased :
    {S : Type 0} → List ℕ → EraseCondition → Node → ℕ → Blob S → EraseStep × Blob S → Type 0
Erased w0 c t d b (done (unchanged n) m, b') =
    (IsTree n × (slot_of n ≡ slot_of t))
    × (((m ≡ takes c (look t w0 d)) × (b' ≡ counted m b))
        × (((w : List ℕ) → look n w d ≡ (if m && same w w0 then not_found else look t w d))
            × ((path : List ℕ) → Keyed path t → Keyed path n)))
Erased w0 c t d b (done subtree_gone m, b') = ⊥
Erased w0 c t d b (done (replaced n) m, b') = ⊥
Erased w0 c t d b (crossing guid depth, b') =
    (look t w0 d ≡ LookupResult.crossing guid depth) × (b' ≡ b)

missed-Erased :
    {S : Type 0} (w0 : List ℕ) (c : EraseCondition) (t : Node) (d : ℕ) (b : Blob S)
    → IsTree t
    → look t w0 d ≡ not_found
    → Erased w0 c t d b (done (unchanged t) false, b)
missed-Erased w0 c t d b i e = ((i, refl), ((rw e refl, refl), (λ w. refl, λ path x. x)))

module _ {S : Type 0} (a : Allocator S) (k : List ℕ) (condition : EraseCondition) where
  erase_at_leaf-Erased :
      (slot d : ℕ) (l : Leaf) (b : Blob S)
      → 1 ≤ slot
      → Returns
          (Erased (full k) condition (leaf slot l) d b)
          Never
          (erase_at_leaf a (user k) condition slot l b)
  unfolding erase_at_leaf
  erase_at_leaf-Erased slot d l b i =
      rw (eq_slice-full k l.key) (elim (Bool-cases (same (full k) l.key)) [
        | inr e ↦
            rw e (
              returned (missed-Erased (full k) condition (leaf slot l) d b i (rw e (ground arith))))
        | inl e ↦ rw e (
            Returns-if
              (λ (t : l.tombstone ≡ true).
                returned (missed-Erased (full k) condition (leaf slot l) d b i (rw t refl)))
              (λ (t : l.tombstone ≡ false). elim (Bool-cases (allows condition l.seq)) [
                | inr f ↦
                    rw f
                      (returned ((i, refl), ((rw (t, e, f) refl, refl), (λ w. refl, λ path x. x))))
                | inl f ↦ rw f (
                    returned (
                      (i, refl),
                      (
                        (rw (t, e, f) refl, refl),
                        (
                          λ w.
                              let z : full k ≡ l.key = same_eq (full k) l.key e in
                              rw (t, z) (ground arith),
                          λ path x. x,
                        ),
                      ),
                    ))
              ]))
      ])

  pass_prefix-Erased :
      (slot : ℕ) (bytes : List ℕ) (child : Node) (d : ℕ) (b : Blob S) (r : EraseStep) (b' : Blob S)
      → IsTree (prefix slot bytes child)
      → starts bytes (drop d (full k)) ≡ true
      → Erased (full k) condition child (d + length bytes) b (r, b')
      → Returns
          (Erased (full k) condition (prefix slot bytes child) d b)
          Never
          (pass_prefix a (user k) condition slot bytes b' r)
  pass_prefix-Erased slot bytes child d b (done (unchanged n) m) b' (l, (q, t)) e
        ((u, v), ((f, c), (g, j))) =
      returned (
        ((l, (q, u)), refl),
        (
          (rw e f, c),
          (
            λ w.
                prefix_look (full k) m (starts bytes (drop d w)) (same w (full k)) not_found _ _
                  (λ s. let z : w ≡ full k = same_eq w (full k) s in rw z e) (g w),
            λ path (x, y). (x, j (path ++ bytes) y),
          ),
        ),
      )
  pass_prefix-Erased slot bytes child d b (done subtree_gone m) b' i e u = absurd u
  pass_prefix-Erased slot bytes child d b (done (replaced n) m) b' i e u = absurd u
  pass_prefix-Erased slot bytes child d b (crossing guid depth) b' i e (u, f) = returned (rw e u, f)

  pass_inner-Erased :
      (slot : ℕ) (n : Inner) (children : ℕ → Node) (byte c d : ℕ) (b : Blob S) (r : EraseStep)
      (b' : Blob S)
      → IsTree (inner slot n children)
      → get_elem? (full k) d ≡ some byte
      → child_of n byte ≡ some c
      → Erased (full k) condition (children byte) (d + 1) b (r, b')
      → Returns
          (Erased (full k) condition (inner slot n children) d b)
          Never
          (pass_inner a (user k) condition slot n children byte b' r)
  pass_inner-Erased slot n children byte c d b (done (unchanged x) m) b' (l, (i, h)) e f
        ((u, v), ((g, p), (j, ks))) =
      returned (
        ((l, (i, kept_children n children x byte u v h)), refl),
        (
          (rw (e, f) g, p),
          (
            λ w.
                inner_look (full k) m n children x byte d w (get_elem? w d)
                  (λ s. let z : w ≡ full k = same_eq w (full k) s in rw z e) (j w),
            λ path (y, ys). (y, kept_Keyed path n children x byte ys (ks (path ++ (byte ∷ [])))),
          ),
        ),
      )
  pass_inner-Erased slot n children byte c d b (done subtree_gone m) b' i e f u = absurd u
  pass_inner-Erased slot n children byte c d b (done (replaced x) m) b' i e f u = absurd u
  pass_inner-Erased slot n children byte c d b (crossing guid depth) b' i e f (u, g) =
      returned (rw (e, f) u, g)

  -- In a well-formed tree an erase never fails, and no node leaves its slot.
  pub erase_at_step-Erased :
      (t : Node) (d : ℕ) (b : Blob S)
      → IsTree t
      → d ≤ length (full k)
      → Returns (Erased (full k) condition t d b) Never (erase_at_step a (user k) condition t d b)
  unfolding erase_at_step
  erase_at_step-Erased (empty_root slot) d b i h =
      returned (missed-Erased (full k) condition (empty_root slot) d b i refl)
  erase_at_step-Erased (leaf slot l) d b i h = erase_at_leaf-Erased slot d l b i
  erase_at_step-Erased (prefix slot bytes child) d b (l, (q, t)) h =
      let e1 : ltb prefix_max_inline (length bytes) ≡ false = ground (arith, q) in
      rw (e1, range_eq-full k bytes d h)
        (elim (Bool-cases (starts bytes (drop d (full k)))) [
          | inr e ↦ rw e (
              returned (
                missed-Erased (full k) condition (prefix slot bytes child) d b (l, (q, t))
                  (rw e refl)))
          | inl e ↦
              let h' : d + length bytes ≤ length (full k) =
                omega (arith, starts_length bytes (drop d (full k)) e, length-drop d (full k), h) in
              rw e (
                Returns-bind (erase_at_step-Erased child (d + length bytes) b t h')
                  (λ (r, b') u. pass_prefix-Erased slot bytes child d b r b' (l, (q, t)) e u))
        ])
  erase_at_step-Erased (inner slot n children) d b (l, (q, t)) h =
      rw (byte_at-full k d) (elim (Option-cases (get_elem? (full k) d)) [
        | inl e ↦ rw e (
            returned (
              missed-Erased (full k) condition (inner slot n children) d b (l, (q, t)) (rw e refl)))
        | inr (byte, e) ↦
            rw (e, inner_find_child-of panic n byte q)
              (elim (Option-cases (child_of n byte)) [
                | inl f ↦ rw f (
                    returned (
                      missed-Erased (full k) condition (inner slot n children) d b (l, (q, t))
                        (rw (e, f) refl)))
                | inr (c, f) ↦
                    let h' : d + 1 ≤ length (full k) =
                      omega (arith, get_elem?-inside (full k) d byte e) in
                    rw f (
                      Returns-bind
                        (erase_at_step-Erased (children byte) (d + 1) b (t byte c f).1 h')
                        (λ (r, b') u.
                          pass_inner-Erased slot n children byte c d b r b' (l, (q, t)) e f u))
              ])
      ])
  erase_at_step-Erased (blob_node slot bytes guid) d b (l, q) h =
      let e1 : ltb blob_max_inline (length bytes) ≡ false = ground (arith, q) in
      rw (e1, range_eq-full k bytes d h)
        (elim (Bool-cases (starts bytes (drop d (full k)))) [
          | inr e ↦ rw e (
              returned (
                missed-Erased (full k) condition (blob_node slot bytes guid) d b (l, q)
                  (rw e refl)))
          | inl e ↦ rw e (returned (rw e refl, refl))
        ])
