-- ===== src/Engine/Insert/Splits.antt =====
-- An insert where the key leaves the key of a leaf.
use artisan.Prelude.{
  ℕ, ◌+◌, ◌≤◌, ◌<◌, ◌≡◌, ◌≢◌, refl, sym, ◌∙◌, true, false, ◌||◌, some, List, [], ◌∷◌, ltb, ◌==◌,
  length, take, drop, get_elem?, get_or, arith, length-drop, length-append,
}
use artisan.Errors.{Returns, returned, Returns-bind, Returns-if}
use artisan.Engine.Allocator.{Allocator, IsRefusal}
use artisan.Engine.Key.{user, remaining_len, byte_at, longest_common_prefix}
use artisan.Engine.Key.Terminated.{
  same, full, byte_at-full, eq_slice-full, common_prefix_with_slice-full,
}
use artisan.Engine.Tree.{Leaf, leaf, not_found}
use artisan.Engine.Tree.Finds.{look}
use artisan.Engine.Writers.Finds.{get_elem?-drop}
use artisan.Engine.Insert.{
  InsertCondition, is_version, Blob, in_space, permits, split_leaf, insert_into_leaf,
}
use artisan.Engine.Insert.Forks.{write_fork-Forked}
use artisan.Engine.Insert.Sides.{leaf_forked, fork-Stored, old-Stored}
use artisan.Engine.Insert.Partings.{get_elem?-or, common_apart}
use artisan.Engine.Insert.Steps.{
  Inserted, kept-Inserted, new-Inserted, Diverges, own_admits, update_leaf-Inserted,
}

-- The byte at which the key leaves `y`.
abbrev pub parting : List ℕ → List ℕ → ℕ → ℕ
parting w0 y d = get_or (drop d w0) (longest_common_prefix (drop d w0) y) 0

pub parting_byte :
    (w0 y : List ℕ) (d : ℕ)
    → longest_common_prefix (drop d w0) y < length (drop d w0)
    → get_elem? (drop d w0) (longest_common_prefix (drop d w0) y) ≡ some (parting w0 y d)
parting_byte w0 y d h = get_elem?-or (drop d w0) (longest_common_prefix (drop d w0) y) h

pub key_byte :
    (k y : List ℕ) (d : ℕ)
    → longest_common_prefix (drop d (full k)) y < length (drop d (full k))
    → byte_at (user k) (d + longest_common_prefix (drop d (full k)) y) ≡ some (parting (full k) y d)
key_byte k y d h =
    byte_at-full k (d + longest_common_prefix (drop d (full k)) y)
    ∙ get_elem?-drop d (longest_common_prefix (drop d (full k)) y) (full k)
    ∙ parting_byte (full k) y d h

pub parts_differ :
    (w0 y : List ℕ) (d : ℕ)
    → Diverges (drop d w0) y
    → get_or y (longest_common_prefix (drop d w0) y) 0 ≢ parting w0 y d
parts_differ w0 y d (h, i) e =
    common_apart (drop d w0) y _ _ (parting_byte w0 y d h) (get_elem?-or y _ i) (sym e)

pub rest_length :
    (bytes : List ℕ) (c d : ℕ)
    → c < length bytes
    → d + c + 1 + length (drop (c + 1) bytes) ≡ d + length bytes
rest_length bytes c d h = omega (arith, length-drop (c + 1) bytes)

module _ {S : Type 0} (a : Allocator S) (k value : List ℕ) (seq : ℕ)
    (condition : InsertCondition) where
  split_leaf-Inserted :
      (slot d : ℕ) (l : Leaf) (b : Blob S)
      → 1 ≤ slot
      → same (full k) l.key ≡ false
      → d ≤ length l.key
      → Diverges (drop d (full k)) (drop d l.key)
      → Returns
          (Inserted (full k) value seq condition (leaf slot l) d b)
          IsRefusal
          (split_leaf a (user k) value seq condition slot l d b)
  unfolding split_leaf
  split_leaf-Inserted slot d l b i n p (h1, h2) =
      let y = drop d l.key in
      let c = longest_common_prefix (drop d (full k)) y in
      let absent : look (leaf slot l) (full k) d ≡ not_found = rw n (ground arith) in
      let e1 : ltb (length l.key) d ≡ false = ground arith in
      let e2 : (c == length y || c == remaining_len (user k) d) ≡ false =
        ground (arith, h1, h2, length-drop d (full k), length-append k (0 ∷ [])) in
      rw
        (
          e1,
          common_prefix_with_slice-full k y d,
          e2,
          key_byte k y d h1,
          common_prefix_with_slice-full k y d,
        )
        (Returns-if
          (λ (v : is_version condition ≡ true).
            returned (kept-Inserted (full k) value seq condition (leaf slot l) d b i absent v))
          (λ (v : is_version condition ≡ false).
            Returns-bind
              (write_fork-Forked a k value seq condition (take c y) (get_or y c 0) (leaf slot l)
                (parting (full k) y d) b.space i (parts_differ (full k) y d (h1, h2)))
              (λ (t, s) (it, (f, g)). returned (
                new-Inserted (full k) value seq condition (leaf slot l) t d b (in_space b s) it
                  absent v
                  (λ w.
                    f w d
                    ∙ leaf_forked (full k) value seq slot l (parting (full k) y d) w d h2
                        (parting_byte (full k) y d h1))
                  (λ path m st x.
                    let (pp, st2) =
                      fork-Stored path (full k) y d (parting (full k) y d) m st h1 h2
                        (parting_byte (full k) y d h1) in
                    g path pp (old-Stored path l.key d c m x h2) st2)))))

  pub insert_into_leaf-Inserted :
      (slot d : ℕ) (l : Leaf) (b : Blob S)
      → 1 ≤ slot
      → (same (full k) l.key ≡ false
          → (d ≤ length l.key) × Diverges (drop d (full k)) (drop d l.key))
      → Returns
          (Inserted (full k) value seq condition (leaf slot l) d b)
          IsRefusal
          (insert_into_leaf a (user k) value seq condition slot l d b)
  unfolding insert_into_leaf
  insert_into_leaf-Inserted slot d l b i h = rw (eq_slice-full k l.key) (
      Returns-if
        (λ (e : same (full k) l.key ≡ true).
          Returns-if
            (λ (p : permits condition l ≡ true).
              update_leaf-Inserted a k value seq condition slot d l b i e p)
            (λ (p : permits condition l ≡ false). returned (
              i,
              (
                sym (own_admits a k value seq condition slot l d e ∙ p),
                (λ w. refl, λ path n s x. x),
              ),
            )))
        (λ (e : same (full k) l.key ≡ false). split_leaf-Inserted slot d l b i e (h e).0 (h e).1))
