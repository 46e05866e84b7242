-- ===== src/Engine/Insert/Lookups.antt =====
-- What lookups find after an insert.
use artisan.Prelude.{
  ℕ, ◌≤◌, ◌≡◌, refl, sym, ap, ◌∙◌, Bool, true, false, ◌&&◌, List, [], ◌∷◌, ◌==◌, if◌then◌else◌,
  length, arith,
}
use artisan.Errors.{ok, Returns, Returns-weaken}
use artisan.Engine.Allocator.{Allocator, IsRefusal}
use artisan.Engine.Key.{user}
use artisan.Engine.Key.Terminated.{same, starts, full}
use artisan.Engine.Tree.{Node, LookupResult, found, descend}
use artisan.Engine.Tree.Finds.{IsTree, look, descend-look, starts_length}
use artisan.Engine.Tree.Keyed.{Pos, Stored, Keyed}
use artisan.Engine.Insert.{InsertCondition, Blob, InsertStep, done, crossing, insert_at_step}
use artisan.Engine.Insert.Steps.{admits, Inserted}
use artisan.Engine.Insert.Answers.{insert_at_step-Inserted}
use artisan.Engine.Insert.Keys.{Keyed-Fits}

pub same-full : (x y : List ℕ) → same (full x) (full y) ≡ same x y
same-full [] [] = ground arith
same-full [] (b ∷ []) = ground arith
same-full [] (b ∷ c ∷ y) = ground arith
same-full (a ∷ []) [] = ground arith
same-full (a ∷ c ∷ x) [] = ground arith
same-full (a ∷ x) (b ∷ y) = ap (λ t. (a == b) && t) (same-full x y)

pub ok_if : {A : Type 0} (t : Bool) (x y : A) → (if t then ok x else ok y) ≡ ok (if t then x else y)
ok_if true x y = refl
ok_if false x y = refl

-- A well-formed tree of keys without zero bytes, whose root stands below the bytes `path`.
abbrev pub IsBlobTree : List ℕ → Node → Type 0
IsBlobTree path t = IsTree t × Keyed path t

-- The tree after an insert of `k` under the condition: the lookup of `k` decides whether it is
-- written, and then it is what is found there; or the lookup leads to the same child blob.
abbrev pub Lookups :
    {S : Type 0}
    → List ℕ
    → List ℕ
    → List ℕ
    → ℕ
    → InsertCondition
    → Node
    → Blob S
    → InsertStep × Blob S
    → Type 0
Lookups path k value seq condition t b (done n m, b') =
    IsBlobTree path n
    × (((r : LookupResult) × ((descend t (user k) (length path) ≡ ok r) × (m ≡ admits condition r)))
        × ((k' : List ℕ)
            → length path ≤ length (full k')
            → descend n (user k') (length path) ≡ (
                if m && same k' k
                then ok (found value seq)
                else descend t (user k') (length path))))
Lookups path k value seq condition t b (crossing guid depth, b') =
    (descend t (user k) (length path) ≡ ok (LookupResult.crossing guid depth)) × (b' ≡ b)

module _ {S : Type 0} (a : Allocator S) (k value : List ℕ) (seq : ℕ)
    (condition : InsertCondition) where
  to_lookups :
      (path : List ℕ) (t : Node) (b : Blob S)
      → IsBlobTree path t
      → Stored path (full k)
      → (r : InsertStep × Blob S) → Inserted (full k) value seq condition t (length path) b r
      → Lookups path k value seq condition t b r
  to_lookups path t b (i, ks) s (done n m, b') (u, (f, (g, h))) = (
    (u, h path refl s ks),
    (
      (
        look t (full k) (length path),
        (descend-look t k (length path) i (starts_length path (full k) s.1.1), f),
      ),
      λ k' h'.
          rw
            (
              descend-look n k' (length path) u h',
              descend-look t k' (length path) i h',
              g (full k'),
              same-full k' k,
            )
            (sym (ok_if (m && same k' k) (found value seq) (look t (full k') (length path)))),
    ),
  )
  to_lookups path t b (i, ks) s (crossing guid depth, b') (u, f) =
      (descend-look t k (length path) i (starts_length path (full k) s.1.1) ∙ ap ok u, f)

  -- An insert in a well-formed tree of keys without zero bytes, whose root stands below a path with
  -- which the key begins, refuses only when the allocator does. Otherwise it leaves such a tree, in
  -- which the key is written exactly when its lookup meets the condition, and every other key is
  -- found as before; or it hands over the child blob at which the lookup of the key arrives, and
  -- changes nothing.
  pub insert_at_step-Lookups :
      (path : List ℕ) (t : Node) (b : Blob S)
      → IsBlobTree path t
      → Pos k
      → starts path (full k) ≡ true
      → Returns
          (Lookups path k value seq condition t b)
          IsRefusal
          (insert_at_step a (user k) value seq condition t (length path) b)
  insert_at_step-Lookups path t b (i, ks) p e =
      let s : Stored path (full k) = (k, ((p, refl), e)) in
      Returns-weaken
        (insert_at_step-Inserted a k value seq condition t (length path) b i
          (Keyed-Fits t path (full k) s ks))
        (to_lookups path t b (i, ks) s)
