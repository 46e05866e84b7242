-- ===== src/Engine/Tree/Finds.antt =====
-- The lookup of a well-formed tree, as a function of the key's stored bytes.
use artisan.Prelude.{
  ℕ, zero, suc, ◌+◌, ◌≤◌, ◌<◌, ◌≡◌, refl, true, Option, none, some, List, [], ◌∷◌, if◌then◌else◌,
  length, drop, get_elem?, arith, length-drop,
}
use artisan.Errors.{Outcome, ok}
use artisan.Engine.Key.{user}
use artisan.Engine.Key.Terminated.{same, starts, full, byte_at-full, eq_slice-full, range_eq-full}
use artisan.Engine.Inner.{corrupt}
use artisan.Engine.Inner.Finds.{IsInner, child_of, inner_find_child-of}
use artisan.Engine.Tree.{
  Node, empty_root, leaf, prefix, inner, blob_node, slot_of, LookupResult, not_found, found,
  crossing, at_byte, at_child, descend,
}

-- No slot is 0, inline bytes fit, and each child has the slot that its parent holds.
abbrev pub IsTree : Node → Type 0
IsTree (empty_root slot) = 1 ≤ slot
IsTree (leaf slot l) = 1 ≤ slot
IsTree (prefix slot bytes child) = (1 ≤ slot) × ((length bytes ≤ 112) × IsTree child)
IsTree (inner slot n children) =
    (1 ≤ slot)
    × (IsInner n
        × ((b c : ℕ) → child_of n b ≡ some c → (slot_of (children b) ≡ c) × IsTree (children b)))
IsTree (blob_node slot bytes guid) = (1 ≤ slot) × (length bytes ≤ 104)

pub slot_of-IsTree : (t : Node) → IsTree t → 1 ≤ slot_of t
slot_of-IsTree (empty_root slot) h = h
slot_of-IsTree (leaf slot l) h = h
slot_of-IsTree (prefix slot bytes child) h = h.0
slot_of-IsTree (inner slot n children) h = h.0
slot_of-IsTree (blob_node slot bytes guid) h = h.0

abbrev pub pick : Option ℕ → (ℕ → LookupResult) → LookupResult
pick none f = not_found
pick (some b) f = f b

abbrev pub follow : Option ℕ → LookupResult → LookupResult
follow none r = not_found
follow (some c) r = r

-- What the tree holds for the stored bytes `w`, of which `d` are read.
abbrev pub look : Node → List ℕ → ℕ → LookupResult
look (empty_root slot) w d = not_found
look (leaf slot l) w d =
    if l.tombstone then not_found else if same w l.key then found l.value l.seq else not_found
look (prefix slot bytes child) w d =
    if starts bytes (drop d w) then look child w (d + length bytes) else not_found
look (inner slot n children) w d =
    pick (get_elem? w d) (λ b. follow (child_of n b) (look (children b) w (d + 1)))
look (blob_node slot bytes guid) w d =
    if starts bytes (drop d w) then crossing guid (d + length bytes) else not_found

pub starts_length : (xs ys : List ℕ) → starts xs ys ≡ true → length xs ≤ length ys
starts_length [] ys h = omega arith
starts_length (x ∷ xs) [] h = absurd (cc h)
starts_length (x ∷ xs) (y ∷ ys) h = ground (arith, starts_length xs ys)

pub get_elem?-inside : (w : List ℕ) (d b : ℕ) → get_elem? w d ≡ some b → d < length w
get_elem?-inside [] d b h = absurd (cc h)
get_elem?-inside (x ∷ w) zero b h = omega arith
get_elem?-inside (x ∷ w) (suc d) b h = ground (arith, get_elem?-inside w d b)

at_child-follow :
    (r : Outcome LookupResult) (v : LookupResult) (o : Option ℕ)
    → ((c : ℕ) → o ≡ some c → r ≡ ok v)
    → at_child r o ≡ ok (follow o v)
at_child-follow r v none h = refl
at_child-follow r v (some c) h = h c refl

at_byte-pick :
    (f : ℕ → Outcome LookupResult) (g : ℕ → LookupResult) (o : Option ℕ)
    → ((b : ℕ) → o ≡ some b → f b ≡ ok (g b))
    → at_byte o f ≡ ok (pick o g)
at_byte-pick f g none h = refl
at_byte-pick f g (some b) h = h b refl

-- In a well-formed tree a lookup of a user key from a depth within its stored bytes never fails, and
-- finds what `look` says of the bytes with their terminator, although the terminator is virtual.
pub descend-look :
    (t : Node) (k : List ℕ) (d : ℕ)
    → IsTree t
    → d ≤ length (full k)
    → descend t (user k) d ≡ ok (look t (full k) d)
unfolding descend
descend-look (empty_root slot) k d h i = refl
descend-look (leaf slot l) k d h i = rw (eq_slice-full k l.key) (ground arith)
descend-look (prefix slot bytes child) k d (p, (q, h)) i = rw (range_eq-full k bytes d i) (
    ground (
      arith,
      q,
      starts_length bytes (drop d (full k)),
      length-drop d (full k),
      descend-look child k (d + length bytes) h,
    ))
descend-look (inner slot n children) k d (p, (q, h)) i = rw (byte_at-full k d) (
    at_byte-pick _ _ (get_elem? (full k) d) (λ b e. rw (inner_find_child-of corrupt n b q) (
      at_child-follow _ _ (child_of n b) (λ c f.
        descend-look (children b) k (d + 1) (h b c f).1
          (omega (arith, get_elem?-inside (full k) d b e))))))
descend-look (blob_node slot bytes guid) k d (p, q) i =
    rw (range_eq-full k bytes d i) (ground (arith, q))
