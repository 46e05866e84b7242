-- ===== src/Engine/Tree/Crossings.antt =====
-- A crossing hangs on the bytes above it alone.
use artisan.Prelude.{
  ℕ, zero, suc, ◌+◌, ◌≤◌, ◌<◌, ◌≡◌, refl, sym, ap, ◌∙◌, Bool, true, false, ◌&&◌, Option, none, some,
  List, [], ◌∷◌, ◌==◌, if◌then◌else◌, length, take, drop, get_elem?, arith, length-drop,
}
use artisan.Engine.Key.Terminated.{same, starts}
use artisan.Engine.Inner.Finds.{child_of}
use artisan.Engine.Tree.{
  Node, empty_root, leaf, prefix, inner, blob_node, LookupResult, not_found, found, crossing,
}
use artisan.Engine.Tree.Finds.{pick, follow, look, starts_length, get_elem?-inside}

cut_starts :
    (bytes w : List ℕ) (n : ℕ) → length bytes ≤ n → starts bytes (take n w) ≡ starts bytes w
cut_starts [] w n h = refl
cut_starts (b ∷ bytes) w zero h = absurd (omega (arith, h))
cut_starts (b ∷ bytes) [] (suc n) h = refl
cut_starts (b ∷ bytes) (x ∷ w) (suc n) h =
    ap (λ t. (x == b) && t) (cut_starts bytes w n (omega (arith, h)))

starts_cut :
    (bytes w : List ℕ) (d n : ℕ)
    → d + length bytes ≤ n
    → starts bytes (drop d (take n w)) ≡ starts bytes (drop d w)
starts_cut bytes w zero n h = cut_starts bytes w n (omega (arith, h))
starts_cut bytes w (suc d) zero h = absurd (omega (arith, h))
starts_cut bytes [] (suc d) (suc n) h = refl
starts_cut bytes (x ∷ w) (suc d) (suc n) h = starts_cut bytes w d n (omega (arith, h))

byte_cut : (w : List ℕ) (d n : ℕ) → d < n → get_elem? (take n w) d ≡ get_elem? w d
byte_cut w d zero h = absurd (omega (arith, h))
byte_cut [] d (suc n) h = refl
byte_cut (x ∷ w) zero (suc n) h = refl
byte_cut (x ∷ w) (suc d) (suc n) h = byte_cut w d n (omega (arith, h))

same_starts :
    (bytes w w' : List ℕ) (d n : ℕ)
    → d + length bytes ≤ n
    → take n w ≡ take n w'
    → starts bytes (drop d w) ≡ starts bytes (drop d w')
same_starts bytes w w' d n h q =
    sym (starts_cut bytes w d n h) ∙ ap (λ x. starts bytes (drop d x)) q ∙ starts_cut bytes w' d n h

leaf_end :
    (t u : Bool) (v : List ℕ) (s g n : ℕ)
    → ¬ ((if t then not_found else if u then found v s else not_found) ≡ crossing g n)
leaf_end true u v s g n h = absurd (cc h)
leaf_end false true v s g n h = absurd (cc h)
leaf_end false false v s g n h = absurd (cc h)

pick-crossing :
    (o : Option ℕ) (f : ℕ → LookupResult) (g n : ℕ)
    → pick o f ≡ crossing g n
    → (b : ℕ) × ((o ≡ some b) × (f b ≡ crossing g n))
pick-crossing none f g n h = absurd (cc h)
pick-crossing (some b) f g n h = (b, (refl, h))

follow-crossing :
    (o : Option ℕ) (r : LookupResult) (g n : ℕ)
    → follow o r ≡ crossing g n
    → (c : ℕ) × ((o ≡ some c) × (r ≡ crossing g n))
follow-crossing none r g n h = absurd (cc h)
follow-crossing (some c) r g n h = (c, (refl, h))

if-crossing :
    (t : Bool) (r : LookupResult) (g n : ℕ)
    → (if t then r else not_found) ≡ crossing g n
    → (t ≡ true) × (r ≡ crossing g n)
if-crossing true r g n h = (refl, h)
if-crossing false r g n h = absurd (cc h)

-- A crossing is at least as deep as where it is looked for.
pub look_deep : (t : Node) (w : List ℕ) (d g n : ℕ) → look t w d ≡ crossing g n → d ≤ n
look_deep (empty_root slot) w d g n h = absurd (cc h)
look_deep (leaf slot l) w d g n h = absurd (leaf_end l.tombstone (same w l.key) l.value l.seq g n h)
look_deep (prefix slot bytes child) w d g n h =
    let (e, i) = if-crossing (starts bytes (drop d w)) _ g n h in
    omega (arith, look_deep child w (d + length bytes) g n i)
look_deep (inner slot m children) w d g n h =
    let (b, (e, i)) = pick-crossing (get_elem? w d) _ g n h in
    let (c, (f, j)) = follow-crossing (child_of m b) _ g n i in
    omega (arith, look_deep (children b) w (d + 1) g n j)
look_deep (blob_node slot bytes guid) w d g n h =
    let (e, i) = if-crossing (starts bytes (drop d w)) _ g n h in
    let z : d + length bytes ≡ n = ground (arith, i) in omega (arith, z)

starts_room :
    (bytes w : List ℕ) (d : ℕ)
    → starts bytes (drop d w) ≡ true
    → d ≤ length w
    → d + length bytes ≤ length w
starts_room bytes w d e h = omega (arith, starts_length bytes (drop d w) e, length-drop d w)

-- A crossing stands within the bytes of the key.
pub look_inside :
    (t : Node) (w : List ℕ) (d g n : ℕ) → look t w d ≡ crossing g n → d ≤ length w → n ≤ length w
look_inside (empty_root slot) w d g n h l = absurd (cc h)
look_inside (leaf slot m) w d g n h l =
    absurd (leaf_end m.tombstone (same w m.key) m.value m.seq g n h)
look_inside (prefix slot bytes child) w d g n h l =
    let (e, i) = if-crossing (starts bytes (drop d w)) _ g n h in
    look_inside child w (d + length bytes) g n i (starts_room bytes w d e l)
look_inside (inner slot m children) w d g n h l =
    let (b, (e, i)) = pick-crossing (get_elem? w d) _ g n h in
    let (c, (f, j)) = follow-crossing (child_of m b) _ g n i in
    look_inside (children b) w (d + 1) g n j (omega (arith, get_elem?-inside w d b e))
look_inside (blob_node slot bytes guid) w d g n h l =
    let (e, i) = if-crossing (starts bytes (drop d w)) _ g n h in
    let z : d + length bytes ≡ n = ground (arith, i) in omega (arith, z, starts_room bytes w d e l)

-- The crossing hangs on the bytes above it alone.
pub look-crossing :
    (t : Node) (w w' : List ℕ) (d g n : ℕ)
    → look t w d ≡ crossing g n
    → take n w ≡ take n w'
    → look t w' d ≡ crossing g n
look-crossing (empty_root slot) w w' d g n h q = h
look-crossing (leaf slot l) w w' d g n h q =
    absurd (leaf_end l.tombstone (same w l.key) l.value l.seq g n h)
look-crossing (prefix slot bytes child) w w' d g n h q =
    let (e, i) = if-crossing (starts bytes (drop d w)) _ g n h in
    let b = look_deep child w (d + length bytes) g n i in
    rw (sym (same_starts bytes w w' d n b q) ∙ e)
      (look-crossing child w w' (d + length bytes) g n i q)
look-crossing (inner slot m children) w w' d g n h q =
    let (b, (e, i)) = pick-crossing (get_elem? w d) _ g n h in
    let (c, (f, j)) = follow-crossing (child_of m b) _ g n i in
    let l : d < n = omega (arith, look_deep (children b) w (d + 1) g n j) in
    let e' : get_elem? w' d ≡ some b =
      sym (byte_cut w' d n l) ∙ ap (λ x. get_elem? x d) (sym q) ∙ byte_cut w d n l ∙ e in
    rw (e', f) (look-crossing (children b) w w' (d + 1) g n j q)
look-crossing (blob_node slot bytes guid) w w' d g n h q =
    let (e, i) = if-crossing (starts bytes (drop d w)) _ g n h in
    let z : d + length bytes ≡ n = ground (arith, i) in
    rw (sym (same_starts bytes w w' d n (omega (arith, z)) q) ∙ e) i
