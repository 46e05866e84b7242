-- ===== src/Engine/Insert/Sides.antt =====
-- The two sides of a fork: what stood in its place, and the new key.
use artisan.Prelude.{
  ℕ, ◌+◌, ◌<◌, ◌≡◌, ◌≢◌, refl, sym, ap, ◌∙◌, Bool, true, false, Option, none, some, List, [], ◌∷◌,
  ◌++◌, ◌==◌, if◌then◌else◌, length, take, drop, get_elem?, get_or, arith, Bool-cases, inl, inr,
  length-drop, length-take, length-append,
}
use artisan.Engine.Key.{longest_common_prefix}
use artisan.Engine.Key.Terminated.{same, same_self, same_eq, starts}
use artisan.Engine.Tree.{Leaf, Node, leaf, LookupResult, not_found, found}
use artisan.Engine.Tree.Finds.{pick, look}
use artisan.Engine.Tree.Keyed.{Pos, Stored, Stored-more, Stored-byte, Stored-Pos}
use artisan.Engine.Writers.Finds.{drop-drop, get_elem?-drop}
use artisan.Engine.Insert.Partings.{
  starts-common, common_apart, get_elem?-or, starts_take, starts_at,
}
use artisan.Engine.Insert.Forks.{forked, none_found}

other_key :
    (t : Bool) (o : Option ℕ) (b1 : ℕ) (v : LookupResult) (b2 : ℕ)
    → (if t
        then pick o (λ b. if b == b1 then v else if b == b2 then not_found else not_found)
        else not_found)
      ≡ (if t then pick o (λ b. if b == b1 then v else not_found) else not_found)
other_key t none b1 v b2 = refl
other_key t (some b) b1 v b2 = ground arith

module _ (w0 value : List ℕ) (seq : ℕ) where
  -- What is asked for by the key is in the fork.
  forked_key :
      (common : List ℕ) (b1 : ℕ) (existing : Node) (b2 : ℕ) (w : List ℕ) (d : ℕ)
      → b1 ≢ b2
      → starts common (drop d w0) ≡ true
      → get_elem? (drop d w0) (length common) ≡ some b2
      → same w w0 ≡ true
      → forked common b1 existing b2 w0 value seq w d ≡ found value seq
  forked_key common b1 existing b2 w d n h e i =
      let j : w ≡ w0 = same_eq w w0 i in rw (j, h, e, same_self w0) (ground (arith, n))

  -- Another key that is not below the byte of the old node is not there.
  forked_nothing :
      (common : List ℕ) (b1 : ℕ) (existing : Node) (b2 : ℕ) (w : List ℕ) (d : ℕ)
      → look existing w (d + length common + 1) ≡ not_found
      → same w w0 ≡ false
      → forked common b1 existing b2 w0 value seq w d ≡ not_found
  forked_nothing common b1 existing b2 w d h i = elim (Bool-cases (starts common (drop d w))) [
    | inl s ↦ rw (s, h, i) (none_found (get_elem? (drop d w) (length common)) _ (λ b. ground arith))
    | inr s ↦ rw s refl
  ]

  -- A fork of the leaf `l` where its key and the new one part.
  pub leaf_forked :
      (slot : ℕ) (l : Leaf) (b2 : ℕ) (w : List ℕ) (d : ℕ)
      → let c = longest_common_prefix (drop d w0) (drop d l.key) in
        c < length (drop d l.key)
        → get_elem? (drop d w0) c ≡ some b2
        → forked
            (take c (drop d l.key))
            (get_or (drop d l.key) c 0)
            (leaf slot l)
            b2
            w0
            value
            seq
            w
            d
          ≡ (if same w w0 then found value seq else look (leaf slot l) w d)
  leaf_forked slot l b2 w d h e =
      let y = drop d l.key in
      let c = longest_common_prefix (drop d w0) y in
      let len : length (take c y) ≡ c = omega (arith, length-take c y, h) in
      let at : get_elem? y c ≡ some (get_or y c 0) = get_elem?-or y c h in
      let e0 : get_elem? (drop d w0) (length (take c y)) ≡ some b2 = rw len e in
      let at0 : get_elem? y (length (take c y)) ≡ some (get_or y c 0) = rw len at in
      let apart : get_or y c 0 ≢ b2 =
        λ z. common_apart (drop d w0) y b2 (get_or y c 0) e at (sym z) in
      elim (Bool-cases (same w w0)) [
        | inl i ↦
            forked_key (take c y) (get_or y c 0) (leaf slot l) b2 w d apart
              (starts-common (drop d w0) y) e0 i
            ∙ rw i refl
        | inr i ↦ elim (Bool-cases (same w l.key)) [
          | inl j ↦
              let z : w ≡ l.key = same_eq w l.key j in
              let i' : same l.key w0 ≡ false = rw (sym z) i in
              rw (z, starts_take c y, at0, i') (ground arith)
          | inr j ↦
              forked_nothing (take c y) (get_or y c 0) (leaf slot l) b2 w d (rw j (ground arith)) i
              ∙ rw (i, j) (ground arith)
        ]
      ]

  -- A fork of a node below `bytes` where the new key leaves them.
  pub bytes_forked :
      (bytes : List ℕ) (existing : Node) (b2 : ℕ) (w : List ℕ) (d : ℕ) (v : LookupResult)
      → let c = longest_common_prefix (drop d w0) bytes in
        c < length bytes
        → get_elem? (drop d w0) c ≡ some b2
        → look existing w (d + c + 1)
          ≡ (if starts (drop (c + 1) bytes) (drop (d + c + 1) w) then v else not_found)
        → forked (take c bytes) (get_or bytes c 0) existing b2 w0 value seq w d ≡ (
            if same w w0 then found value seq else if starts bytes (drop d w) then v else not_found)
  bytes_forked bytes existing b2 w d v h e f =
      let c = longest_common_prefix (drop d w0) bytes in
      let len : length (take c bytes) ≡ c = omega (arith, length-take c bytes, h) in
      let at : get_elem? bytes c ≡ some (get_or bytes c 0) = get_elem?-or bytes c h in
      let e0 : get_elem? (drop d w0) (length (take c bytes)) ≡ some b2 = rw len e in
      let apart : get_or bytes c 0 ≢ b2 =
        λ z. common_apart (drop d w0) bytes b2 (get_or bytes c 0) e at (sym z) in
      elim (Bool-cases (same w w0)) [
        | inl i ↦
            forked_key (take c bytes) (get_or bytes c 0) existing b2 w d apart
              (starts-common (drop d w0) bytes) e0 i
            ∙ rw i refl
        | inr i ↦
            let g : drop (d + c + 1) w ≡ drop (c + 1) (drop d w) =
              ap (λ n. drop n w) (omega arith) ∙ drop-drop d (c + 1) w in
            rw (i, starts_at c bytes (drop d w) v h, len, f, g)
              (other_key (starts (take c bytes) (drop d w)) (get_elem? (drop d w) c) _ _ b2)
      ]

-- Where a stored key leaves `y` below its path, the path grows to either side of the fork.
pub fork-Stored :
    (path w0 y : List ℕ) (d b2 : ℕ)
    → length path ≡ d
    → Stored path w0
    → let c = longest_common_prefix (drop d w0) y in
      c < length (drop d w0)
      → c < length y
      → get_elem? (drop d w0) c ≡ some b2
      → Pos (path ++ take c y) × Stored ((path ++ take c y) ++ (b2 ∷ [])) w0
fork-Stored path w0 y d b2 l s h1 h2 e =
    let c = longest_common_prefix (drop d w0) y in
    let s0 : starts (take c y) (drop (length path) w0) ≡ true =
      rw l (starts-common (drop d w0) y) in
    let m = Stored-more path (take c y) w0 s s0 in
    let len : length (path ++ take c y) ≡ d + c =
      omega (arith, length-append path (take c y), length-take c y, h2, l) in
    let e' : get_elem? w0 (length (path ++ take c y)) ≡ some b2 =
      rw len (get_elem?-drop d c w0 ∙ e) in
    (
      Stored-Pos (path ++ take c y) w0 m (omega (arith, len, length-drop d w0, h1)),
      Stored-byte (path ++ take c y) w0 b2 m e',
    )

pub old-Stored :
    (path key : List ℕ) (d c : ℕ)
    → length path ≡ d
    → Stored path key
    → c < length (drop d key)
    → Stored ((path ++ take c (drop d key)) ++ (get_or (drop d key) c 0 ∷ [])) key
old-Stored path key d c l s h =
    let y = drop d key in
    let s0 : starts (take c y) (drop (length path) key) ≡ true = rw l (starts_take c y) in
    let len : length (path ++ take c y) ≡ d + c =
      omega (arith, length-append path (take c y), length-take c y, h, l) in
    let e : get_elem? key (length (path ++ take c y)) ≡ some (get_or y c 0) =
      rw len (get_elem?-drop d c key ∙ get_elem?-or y c h) in
    Stored-byte (path ++ take c y) key (get_or y c 0) (Stored-more path (take c y) key s s0) e
