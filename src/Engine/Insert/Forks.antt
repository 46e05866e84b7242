-- ===== src/Engine/Insert/Forks.antt =====
-- A fork holds the new key, and what stood in its place.
use artisan.Prelude.{
  ℕ, ◌+◌, ◌≡◌, ◌≢◌, refl, ap, ◌∙◌, true, false, Option, none, some, List, [], ◌∷◌, ◌++◌, ◌==◌,
  if◌then◌else◌, length, drop, get_elem?, arith, append-nil,
}
use artisan.Errors.{Returns, returned, Returns-bind, Returns-if, Returns-weaken}
use artisan.Engine.Allocator.{Allocator, IsRefusal}
use artisan.Engine.Key.{user}
use artisan.Engine.Key.Terminated.{same, starts, full}
use artisan.Engine.Tree.{Node, LookupResult, not_found, found}
use artisan.Engine.Tree.Finds.{IsTree, pick, look}
use artisan.Engine.Tree.Keyed.{Pos, Stored, Keyed, Pos-Begins}
use artisan.Engine.Writers.Finds.{
  get_elem?-drop, write_prefix_chain-Under, write_leaf-Single, write_node4_with-Two,
}
use artisan.Engine.Insert.{InsertCondition, write_fork}

-- What a fork holds: below `common`, `existing` at its byte, and the key `w0` at the other.
abbrev pub forked : List ℕ → ℕ → Node → ℕ → List ℕ → List ℕ → ℕ → List ℕ → ℕ → LookupResult
forked common b1 existing b2 w0 value seq w d =
    if starts common (drop d w)
    then pick (get_elem? (drop d w) (length common)) (λ b.
      if b == b1
      then look existing w (d + length common + 1)
      else if b == b2
      then if same w w0 then found value seq else not_found
      else not_found)
    else not_found

abbrev Forked : {S : Type 0} → List ℕ → ℕ → Node → ℕ → List ℕ → List ℕ → ℕ → Node × S → Type 0
Forked common b1 existing b2 w0 value seq (n, s) =
    IsTree n
    × (((w : List ℕ) (d : ℕ) → look n w d ≡ forked common b1 existing b2 w0 value seq w d)
        × ((path : List ℕ)
            → Pos (path ++ common)
            → Keyed ((path ++ common) ++ (b1 ∷ [])) existing
            → Stored ((path ++ common) ++ (b2 ∷ [])) w0
            → Keyed path n))

pub none_found :
    (o : Option ℕ) (f : ℕ → LookupResult) → ((b : ℕ) → f b ≡ not_found) → pick o f ≡ not_found
none_found none f h = refl
none_found (some b) f h = h b

no_common :
    (common : List ℕ) (n : Node) (w : List ℕ) (d : ℕ)
    → (length common == 0) ≡ true
    → look n w d ≡ (if starts common (drop d w) then look n w (d + length common) else not_found)
no_common [] n w d h = ap (look n w) (omega arith)
no_common (b ∷ common) n w d h = absurd (ground (arith, h))

no_path : (path common : List ℕ) → (length common == 0) ≡ true → path ++ common ≡ path
no_path path [] h = append-nil path
no_path path (b ∷ common) h = absurd (ground (arith, h))

module _ {S : Type 0} (a : Allocator S) (k value : List ℕ) (seq : ℕ)
    (condition : InsertCondition) where
  pub write_fork-Forked :
      (common : List ℕ) (b1 : ℕ) (existing : Node) (b2 : ℕ) (s : S)
      → IsTree existing
      → b1 ≢ b2
      → Returns
          (Forked common b1 existing b2 (full k) value seq)
          IsRefusal
          (write_fork a (user k) value seq condition common b1 existing b2 s)
  unfolding write_fork
  write_fork-Forked common b1 existing b2 s t n =
      Returns-bind (write_leaf-Single a k value seq s) (λ (new, s1) (t1, (f1, g1)).
        Returns-bind (write_node4_with-Two a b1 existing b2 new s1 t t1 n)
          (λ (n4, s2) (t2, (f2, g2)).
            let f : (w : List ℕ) (d : ℕ)
                → (if starts common (drop d w) then look n4 w (d + length common) else not_found)
                  ≡ forked common b1 existing b2 (full k) value seq w d =
              λ w d.
                rw
                  (
                    f2 w (d + length common),
                    get_elem?-drop d (length common) w,
                    f1 w (d + length common + 1),
                  )
                  refl in
            Returns-if
              (λ (e : (length common == 0) ≡ true). returned (
                t2,
                (
                  λ w d. no_common common n4 w d e ∙ f w d,
                  λ path p h1 h2.
                      let h : Keyed (path ++ common) n4 = g2 (path ++ common) p h1 (g1 _ h2) in
                      rw (no_path path common e) at h,
                ),
              ))
              (λ (e : (length common == 0) ≡ false).
                Returns-weaken (write_prefix_chain-Under a common n4 s2 t2)
                  (λ (n', s3) (t3, (f3, g3)). (
                    t3,
                    (
                      λ w d. f3 w d ∙ f w d,
                      λ path p h1 h2.
                          g3 path (Pos-Begins (path ++ common) p)
                            (g2 (path ++ common) p h1 (g1 _ h2)),
                    ),
                  )))))
