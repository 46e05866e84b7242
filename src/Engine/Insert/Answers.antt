-- ===== src/Engine/Insert/Answers.antt =====
-- An insert anywhere in the tree of a blob.
use artisan.Prelude.{
  ℕ, ◌+◌, ◌≤◌, ◌<◌, ◌≡◌, refl, ◌∙◌, true, false, none, some, List, [], ◌∷◌, ltb, length, drop,
  get_elem?, get_or, arith, Bool-cases, Option-cases, inl, inr, length-append, ◌++◌,
}
use artisan.Errors.{panic, Returns, returned, Returns-bind, Returns-if}
use artisan.Engine.Allocator.{Allocator, IsRefusal}
use artisan.Engine.Key.{user, longest_common_prefix}
use artisan.Engine.Key.Terminated.{
  same, same_eq, starts, full, byte_at-full, common_prefix_with_slice-full,
}
use artisan.Engine.Inner.{Inner, put_at}
use artisan.Engine.Inner.Finds.{child_of, inner_find_child-of}
use artisan.Engine.Inner.Adds.{inner_add_child-Added}
use artisan.Engine.Tree.{
  Node, empty_root, leaf, prefix, inner, blob_node, slot_of, not_found, found, prefix_max_inline,
}
use artisan.Engine.Tree.Finds.{IsTree, slot_of-IsTree, look}
use artisan.Engine.Tree.Keyed.{Stored-more, Stored-byte}
use artisan.Engine.Writers.Finds.{write_leaf-Single}
use artisan.Engine.Insert.{
  InsertCondition, is_version, Blob, in_space, InsertStep, done, crossing, set_prefix_child,
  set_inner_child, add_leaf, insert_at_step,
}
use artisan.Engine.Insert.Partings.{common_starts, get_elem?-or}
use artisan.Engine.Insert.Steps.{
  Inserted, kept-Inserted, new-Inserted, Diverges, insert_into_empty_root-Inserted,
}
use artisan.Engine.Insert.Splits.{insert_into_leaf-Inserted}
use artisan.Engine.Insert.Prefixes.{blob_node_insert_step-Inserted, split_prefix-Inserted}
use artisan.Engine.Insert.Parents.{prefix_look, inner_look, inner_IsTree, inner_Keyed, updated}

-- On its way down, the key `w0` meets no key or byte string of which one is a strict prefix of the other.
abbrev pub Fits : Node → List ℕ → ℕ → Type 0
Fits (empty_root slot) w0 d = Unit {0}
Fits (leaf slot l) w0 d =
    same w0 l.key ≡ false → (d ≤ length l.key) × Diverges (drop d w0) (drop d l.key)
Fits (prefix slot bytes child) w0 d =
    (starts bytes (drop d w0) ≡ true → Fits child w0 (d + length bytes))
    × (starts bytes (drop d w0) ≡ false
        → longest_common_prefix (drop d w0) bytes < length (drop d w0))
Fits (inner slot n children) w0 d =
    (d < length w0)
    × ((b c : ℕ) → get_elem? w0 d ≡ some b → child_of n b ≡ some c → Fits (children b) w0 (d + 1))
Fits (blob_node slot bytes guid) w0 d =
    starts bytes (drop d w0) ≡ false → longest_common_prefix (drop d w0) bytes < length (drop d w0)

module _ {S : Type 0} (a : Allocator S) (k value : List ℕ) (seq : ℕ)
    (condition : InsertCondition) where
  abbrev Answers : Node → ℕ → Blob S → InsertStep × Blob S → Type 0
  Answers t d b r = Inserted (full k) value seq condition t d b r

  set_prefix_child-Inserted :
      (slot : ℕ) (bytes : List ℕ) (child : Node) (d : ℕ) (b : Blob S) (r : InsertStep) (b' : Blob S)
      → IsTree (prefix slot bytes child)
      → starts bytes (drop d (full k)) ≡ true
      → Inserted (full k) value seq condition child (d + length bytes) b (r, b')
      → Returns
          (Answers (prefix slot bytes child) d b)
          IsRefusal
          (set_prefix_child a (user k) value seq condition slot bytes b' r)
  set_prefix_child-Inserted slot bytes child d b (done n m) b' (l, (q, t)) e (u, (f, (g, j))) =
      returned (
        (l, (q, u)),
        (
          rw e f,
          (
            λ w.
                prefix_look (full k) m (starts bytes (drop d w)) (same w (full k)) (found value seq)
                  _ _ (λ s. let z : w ≡ full k = same_eq w (full k) s in rw z e) (g w),
            λ path n' s (x, y). (
              x,
              j (path ++ bytes) (omega (arith, length-append path bytes, n'))
                  (Stored-more path bytes (full k) s (rw n' e)) y,
            ),
          ),
        ),
      )
  set_prefix_child-Inserted slot bytes child d b (crossing guid depth) b' (l, (q, t)) e (u, f) =
      returned (rw e u, f)

  set_inner_child-Inserted :
      (slot : ℕ) (n : Inner) (children : ℕ → Node) (byte c d : ℕ) (b : Blob S) (r : InsertStep)
      (b' : Blob S)
      → IsTree (inner slot n children)
      → get_elem? (full k) d ≡ some byte
      → child_of n byte ≡ some c
      → Inserted (full k) value seq condition (children byte) (d + 1) b (r, b')
      → Returns
          (Answers (inner slot n children) d b)
          IsRefusal
          (set_inner_child a (user k) value seq condition slot n children byte c b' r)
  set_inner_child-Inserted slot n children byte c d b (done x m) b' (l, (i, h)) e f
        (t, (g, (j, z))) =
      let (n', (y, p)) = updated n byte c (slot_of x) i f (slot_of-IsTree x t) in
      rw y (
        returned (
          inner_IsTree slot n n' children x byte l p t h,
          (
            rw (e, f) g,
            (
              λ w.
                  inner_look (full k) m n n' children x byte (slot_of x) d (found value seq) w
                    (get_elem? w d) p (λ s. let z : w ≡ full k = same_eq w (full k) s in rw z e)
                    (j w ∙ rw f refl),
              λ path r s (y, ys).
                  let s' = Stored-byte path (full k) byte s (rw r e) in
                  inner_Keyed slot n n' children x byte path p y ys (
                    z (path ++ (byte ∷ [])) (omega (arith, length-append path (byte ∷ []), r)) s'
                      (ys byte c f)),
            ),
          ),
        ))
  set_inner_child-Inserted slot n children byte c d b (crossing guid depth) b' (l, (i, h)) e f
        (t, g) =
      returned (rw (e, f) t, g)

  add_leaf-Inserted :
      (slot : ℕ) (n : Inner) (children : ℕ → Node) (byte d : ℕ) (b : Blob S)
      → IsTree (inner slot n children)
      → get_elem? (full k) d ≡ some byte
      → child_of n byte ≡ none
      → Returns
          (Answers (inner slot n children) d b)
          IsRefusal
          (add_leaf a (user k) value seq condition slot n children byte b)
  unfolding add_leaf
  add_leaf-Inserted slot n children byte d b (l, (i, h)) e f =
      let absent : look (inner slot n children) (full k) d ≡ not_found = rw (e, f) refl in
      Returns-if
        (λ (v : is_version condition ≡ true). returned (
          kept-Inserted (full k) value seq condition (inner slot n children) d b (l, (i, h)) absent
            v))
        (λ (v : is_version condition ≡ false).
          Returns-bind (write_leaf-Single a k value seq b.space) (λ (x, s) (t, (g, z)).
            Returns-bind
              (inner_add_child-Added a slot n byte (slot_of x) s i f (slot_of-IsTree x t) l)
              (λ ((slot', n'), s') (l', p, placed). returned (
                new-Inserted (full k) value seq condition (inner slot n children)
                  (inner slot' n' (put_at children byte x)) d b (in_space b s')
                  (inner_IsTree slot' n n' children x byte l' p t h) absent v
                  (λ w.
                    inner_look (full k) true n n' children x byte (slot_of x) d (found value seq) w
                      (get_elem? w d) p (λ s. let z : w ≡ full k = same_eq w (full k) s in rw z e)
                      (g w (d + 1) ∙ rw f refl))
                  (λ path r st (y, ys).
                    inner_Keyed slot' n n' children x byte path p y ys
                      (z (path ++ (byte ∷ [])) (Stored-byte path (full k) byte st (rw r e))))))))

  -- In a well-formed tree in which the key fits, an insert returns or the blob is full.
  pub insert_at_step-Inserted :
      (t : Node) (d : ℕ) (b : Blob S)
      → IsTree t
      → Fits t (full k) d
      → Returns (Answers t d b) IsRefusal (insert_at_step a (user k) value seq condition t d b)
  unfolding insert_at_step
  insert_at_step-Inserted (empty_root slot) d b i h =
      insert_into_empty_root-Inserted a k value seq condition slot d b i
  insert_at_step-Inserted (leaf slot l) d b i h =
      insert_into_leaf-Inserted a k value seq condition slot d l b i h
  insert_at_step-Inserted (prefix slot bytes child) d b (i, (q, t)) (h, h') =
      let e1 : ltb prefix_max_inline (length bytes) ≡ false = ground (arith, q) in
      rw (e1, common_prefix_with_slice-full k bytes d, common_starts (drop d (full k)) bytes)
        (elim (Bool-cases (starts bytes (drop d (full k)))) [
          | inl e ↦ rw e (
              Returns-bind (insert_at_step-Inserted child (d + length bytes) b t (h e))
                (λ (r, b') u. set_prefix_child-Inserted slot bytes child d b r b' (i, (q, t)) e u))
          | inr e ↦ rw e (
              split_prefix-Inserted a k value seq condition slot bytes child d b (i, (q, t)) e
                (h' e))
        ])
  insert_at_step-Inserted (inner slot n children) d b (i, (q, t)) (h, h') =
      let byte = get_or (full k) d 0 in
      let e : get_elem? (full k) d ≡ some byte = get_elem?-or (full k) d h in
      rw (byte_at-full k d, e, inner_find_child-of panic n byte q)
        (elim (Option-cases (child_of n byte)) [
          | inl f ↦ rw f (add_leaf-Inserted slot n children byte d b (i, (q, t)) e f)
          | inr (c, f) ↦ rw f (
              Returns-bind
                (insert_at_step-Inserted (children byte) (d + 1) b (t byte c f).1 (h' byte c e f))
                (λ (r, b') u.
                  set_inner_child-Inserted slot n children byte c d b r b' (i, (q, t)) e f u))
        ])
  insert_at_step-Inserted (blob_node slot bytes guid) d b (i, q) h =
      blob_node_insert_step-Inserted a k value seq condition slot bytes guid d b i q h
