-- ===== src/Engine/Writers/Finds.antt =====
-- What is found below new leaves, chains and forks.
use artisan.Prelude.{
  ℕ, zero, suc, ◌+◌, ◌-◌, ◌≤◌, ◌<◌, ◌≡◌, ◌≢◌, refl, sym, ap, ◌∙◌, true, Option, none, some, List,
  [], ◌∷◌, ◌++◌, ◌==◌, if◌then◌else◌, length, take, drop, min, get_elem?, tests, arith, Bool-cases,
  inl, inr, length-drop, length-take, take-append-drop, length-append, append-nil, append_assoc,
}
use artisan.Errors.{Returns, returned, Returns-bind, Returns-weaken}
use artisan.Layout.Node.{NodeType, node4}
use artisan.Engine.Allocator.{Allocator, IsRefusal}
use artisan.Engine.Key.{user, padded}
use artisan.Engine.Key.Terminated.{same, starts, full}
use artisan.Engine.Inner.{cells4, insert_sorted, put_at}
use artisan.Engine.Inner.Finds.{IsInner, child_of}
use artisan.Engine.Tree.{Node, prefix, slot_of, not_found, found}
use artisan.Engine.Tree.Finds.{IsTree, slot_of-IsTree, pick, follow, look}
use artisan.Engine.Tree.Keyed.{Pos, Stored, Begins, Keyed, Begins-append, starts-append}
use artisan.Engine.Writers.{write_leaf, prefix_chain, write_prefix_chain, write_node4_with}

drop_nil : (n : ℕ) → drop {A = ℕ} n [] ≡ []
drop_nil zero = refl
drop_nil (suc n) = refl

pub drop-drop : (m n : ℕ) (w : List ℕ) → drop (m + n) w ≡ drop n (drop m w)
drop-drop zero n w = ap (λ i. drop i w) (omega arith)
drop-drop (suc m) n [] = drop_nil (suc m + n) ∙ sym (drop_nil n)
drop-drop (suc m) n (x ∷ w) =
    let e : suc m + n ≡ suc (m + n) = omega arith in rw e (drop-drop m n w)

pub get_elem?-drop : (m n : ℕ) (w : List ℕ) → get_elem? w (m + n) ≡ get_elem? (drop m w) n
get_elem?-drop zero n w = ap (λ i. get_elem? w i) (omega arith)
get_elem?-drop (suc m) n [] = refl
get_elem?-drop (suc m) n (x ∷ w) = ground (arith, get_elem?-drop m n w)

-- A tree that holds below `bytes` what `child` holds.
abbrev pub Under : {S : Type 0} → List ℕ → Node → Node × S → Type 0
Under bytes child (n, s) =
    IsTree n
    × (((w : List ℕ) (d : ℕ)
          → look n w d
            ≡ (if starts bytes (drop d w) then look child w (d + length bytes) else not_found))
        × ((path : List ℕ) → Begins (path ++ bytes) → Keyed (path ++ bytes) child → Keyed path n))

-- The chunks `xs` and `ys` of a chain, one below the other.
chunks :
    (xs ys w : List ℕ) (d : ℕ) (child : Node)
    → (if starts xs (drop d w)
        then if starts ys (drop (d + length xs) w)
          then look child w (d + length xs + length ys)
          else not_found
        else not_found)
      ≡ (if starts (xs ++ ys) (drop d w) then look child w (d + length (xs ++ ys)) else not_found)
chunks xs ys w d child =
    let e : d + length (xs ++ ys) ≡ d + length xs + length ys =
      omega (arith, length-append xs ys) in
    rw (starts-append xs ys (drop d w), drop-drop d (length xs) w, e) (ground arith)

module _ {S : Type 0} (a : Allocator S) where
  prefix_chain-Under :
      (fuel : ℕ) (bytes : List ℕ) (child : Node) (s : S)
      → length bytes < fuel
      → IsTree child
      → Returns (Under bytes child) IsRefusal (prefix_chain a fuel bytes child s)
  unfolding prefix_chain
  prefix_chain-Under zero bytes child s h t = absurd (omega arith)
  prefix_chain-Under (suc fuel) [] child s h t =
      returned (t, (λ w d. ground arith, λ path p h. rw (append-nil path) at h))
  prefix_chain-Under (suc fuel) (b ∷ bytes) child s h t =
      let start = length (b ∷ bytes) - min (length (b ∷ bytes)) 112 in
      let xs = take start (b ∷ bytes) in
      let ys = drop start (b ∷ bytes) in
      Returns-bind (a.alloc_node-slot NodeType.prefix s) (λ (slot, s') l.
        let u : IsTree (prefix slot ys child) =
          (l, (omega (arith, length-drop start (b ∷ bytes)), t)) in
        let v : length xs < fuel = omega (arith, length-take start (b ∷ bytes)) in
        Returns-weaken (prefix_chain-Under fuel xs (prefix slot ys child) s' v u)
          (λ (n, s2) (i, (f, g)). (
            i,
            (
              λ w d. f w d ∙ chunks xs ys w d child ∙ rw (take-append-drop start (b ∷ bytes)) refl,
              λ path p h.
                  let e : (path ++ xs) ++ ys ≡ path ++ (b ∷ bytes) =
                    append_assoc path xs ys
                    ∙ ap (λ t. path ++ t) (take-append-drop start (b ∷ bytes)) in
                  let p' : Begins ((path ++ xs) ++ ys) = rw e p in
                  let h' : Keyed ((path ++ xs) ++ ys) child = rw e h in
                  g path (Begins-append (path ++ xs) ys p') (p', h'),
            ),
          )))

  -- Unless the allocator refuses, a chain of prefixes over a well-formed child comes to its end,
  -- holds no more than 112 bytes in a node, and finds below exactly its bytes what the child holds.
  pub write_prefix_chain-Under :
      (bytes : List ℕ) (child : Node) (s : S)
      → IsTree child
      → Returns (Under bytes child) IsRefusal (write_prefix_chain a bytes child s)
  unfolding write_prefix_chain
  write_prefix_chain-Under bytes child s t =
      prefix_chain-Under (length bytes + 1) bytes child s (omega arith) t

-- A tree of the one key `w0`.
abbrev pub Single : {S : Type 0} → List ℕ → List ℕ → ℕ → Node × S → Type 0
Single w0 value seq (n, s) =
    IsTree n
    × (((w : List ℕ) (d : ℕ) → look n w d ≡ (if same w w0 then found value seq else not_found))
        × ((path : List ℕ) → Stored path w0 → Keyed path n))

-- Two trees below a byte each.
abbrev pub Two : {S : Type 0} → ℕ → Node → ℕ → Node → Node × S → Type 0
Two b1 n1 b2 n2 (n, s) =
    IsTree n
    × (((w : List ℕ) (d : ℕ)
          → look n w d
            ≡ pick (get_elem? w d) (λ b.
              if b == b1
              then look n1 w (d + 1)
              else if b == b2
              then look n2 w (d + 1)
              else not_found))
        × ((path : List ℕ)
            → Pos path
            → Keyed (path ++ (b1 ∷ [])) n1
            → Keyed (path ++ (b2 ∷ [])) n2
            → Keyed path n))

two_child :
    (b1 s1 b2 s2 b : ℕ)
    → b1 ≢ b2
    → child_of (cells4 (insert_sorted b2 s2 (insert_sorted b1 s1 []))) b
      ≡ (if b == b1 then some s1 else if b == b2 then some s2 else none)
two_child b1 s1 b2 s2 b n = ground arith

pub two_IsInner :
    (b1 s1 b2 s2 : ℕ)
    → b1 ≢ b2
    → 1 ≤ s1
    → 1 ≤ s2
    → IsInner (cells4 (insert_sorted b2 s2 (insert_sorted b1 s1 [])))
two_IsInner b1 s1 b2 s2 n p q = ground arith

pub two_children :
    (b1 : ℕ) (n1 : Node) (b2 : ℕ) (n2 : Node)
    → b1 ≢ b2
    → IsTree n1
    → IsTree n2
    → (b c : ℕ)
    → child_of (cells4 (insert_sorted b2 (slot_of n2) (insert_sorted b1 (slot_of n1) []))) b
      ≡ some c
    → (slot_of (put_at (λ b. n2) b1 n1 b) ≡ c) × IsTree (put_at (λ b. n2) b1 n1 b)
two_children b1 n1 b2 n2 n t1 t2 b c h =
    let e = sym (two_child b1 (slot_of n1) b2 (slot_of n2) b n) ∙ h in
    elim (Bool-cases (b == b1)) [
      | inl i ↦ rw i (ground (arith, e), t1)
      | inr i ↦ rw i (ground (arith, e), t2)
    ]

two_Keyed :
    (path : List ℕ) (b1 : ℕ) (n1 : Node) (b2 : ℕ) (n2 : Node) (b c : ℕ)
    → b1 ≢ b2
    → Keyed (path ++ (b1 ∷ [])) n1
    → Keyed (path ++ (b2 ∷ [])) n2
    → child_of (cells4 (insert_sorted b2 (slot_of n2) (insert_sorted b1 (slot_of n1) []))) b
      ≡ some c
    → Keyed (path ++ (b ∷ [])) (put_at (λ b. n2) b1 n1 b)
two_Keyed path b1 n1 b2 n2 b c n h1 h2 h =
    let e = sym (two_child b1 (slot_of n1) b2 (slot_of n2) b n) ∙ h in
    elim (Bool-cases (b == b1)) [
      | inl i ↦
          let z : b ≡ b1 = grind tests in let q : (b1 == b1) ≡ true = ground arith in rw (z, q) h1
      | inr i ↦ elim (Bool-cases (b == b2)) [
        | inl j ↦ let z : b ≡ b2 = grind tests in rw i (rw z h2)
        | inr j ↦ absurd (ground (arith, e))
      ]
    ]

two_look :
    (b1 s1 b2 s2 : ℕ) (n1 n2 : Node) (w : List ℕ) (d : ℕ) (o : Option ℕ)
    → b1 ≢ b2
    → pick o (λ b.
      follow
        (child_of (cells4 (insert_sorted b2 s2 (insert_sorted b1 s1 []))) b)
        (look (put_at (λ b. n2) b1 n1 b) w (d + 1)))
      ≡ pick o (λ b.
        if b == b1 then look n1 w (d + 1) else if b == b2 then look n2 w (d + 1) else not_found)
two_look b1 s1 b2 s2 n1 n2 w d none n = refl
two_look b1 s1 b2 s2 n1 n2 w d (some b) n = rw (two_child b1 s1 b2 s2 b n) (ground arith)

module _ {S : Type 0} (a : Allocator S) where
  pub write_leaf-Single :
      (k value : List ℕ) (seq : ℕ) (s : S)
      → Returns (Single (full k) value seq) IsRefusal (write_leaf a (user k) value seq s)
  unfolding write_leaf padded
  write_leaf-Single k value seq s = Returns-bind (a.alloc_extent-refusal _ s) (λ (ext, s1) u.
      Returns-bind (a.alloc_node-slot NodeType.leaf s1)
        (λ (slot, s2) l. returned (l, (λ w d. refl, λ path h. h))))

  pub write_node4_with-Two :
      (b1 : ℕ) (n1 : Node) (b2 : ℕ) (n2 : Node) (s : S)
      → IsTree n1
      → IsTree n2
      → b1 ≢ b2
      → Returns (Two b1 n1 b2 n2) IsRefusal (write_node4_with a b1 n1 b2 n2 s)
  unfolding write_node4_with
  write_node4_with-Two b1 n1 b2 n2 s t1 t2 n =
      Returns-bind (a.alloc_node-slot node4 s) (λ (slot, s') l. returned (
        (
          l,
          (
            two_IsInner b1 (slot_of n1) b2 (slot_of n2) n (slot_of-IsTree n1 t1)
                (slot_of-IsTree n2 t2),
            two_children b1 n1 b2 n2 n t1 t2,
          ),
        ),
        (
          λ w d. two_look b1 (slot_of n1) b2 (slot_of n2) n1 n2 w d (get_elem? w d) n,
          λ path p h1 h2. (p, λ b c. two_Keyed path b1 n1 b2 n2 b c n h1 h2),
        ),
      ))
