-- ===== src/Engine/Tree/Keyed.antt =====
-- Trees whose leaves hold keys without a zero byte, with their terminator, each below its own bytes.
use artisan.Prelude.{
  ℕ, zero, suc, ◌+◌, ◌≤◌, ◌<◌, ◌≡◌, refl, sym, ap, ◌∙◌, true, false, ◌&&◌, some, List, [], ◌∷◌,
  ◌++◌, length, take, drop, get_elem?, get_or, arith, length-append, append_assoc,
}
use artisan.Engine.Key.{longest_common_prefix}
use artisan.Engine.Key.Terminated.{same, starts, full}
use artisan.Engine.Inner.Finds.{child_of}
use artisan.Engine.Tree.{Node, empty_root, leaf, prefix, inner, blob_node}

abbrev pub Pos : List ℕ → Type 0
Pos [] = Unit {0}
Pos (x ∷ xs) = (1 ≤ x) × Pos xs

-- A stored key that begins with `path`.
abbrev pub Stored : List ℕ → List ℕ → Type 0
Stored path key = (k : List ℕ) × ((Pos k × (key ≡ full k)) × (starts path key ≡ true))

-- Some key begins with `path`.
abbrev pub Begins : List ℕ → Type 0
Begins path = (k : List ℕ) × (Pos k × (starts path (full k) ≡ true))

-- Below the terminator there are only prefixes and leaves.
abbrev pub Keyed : List ℕ → Node → Type 0
Keyed path (empty_root slot) = Begins path
Keyed path (leaf slot l) = Stored path l.key
Keyed path (prefix slot bytes child) = Begins (path ++ bytes) × Keyed (path ++ bytes) child
Keyed path (inner slot n children) =
    Pos path × ((b c : ℕ) → child_of n b ≡ some c → Keyed (path ++ (b ∷ [])) (children b))
Keyed path (blob_node slot bytes guid) = Pos (path ++ bytes)

pub Pos-append : (xs ys : List ℕ) → Pos (xs ++ ys) → Pos xs × Pos ys
Pos-append [] ys h = (tt, h)
Pos-append (x ∷ xs) ys (p, h) = ((p, (Pos-append xs ys h).0), (Pos-append xs ys h).1)

-- The bytes of a key before its terminator are not zero, and those of a path are such bytes.
starts-Pos : (p k : List ℕ) → Pos k → starts p (full k) ≡ true → length p ≤ length k → Pos p
starts-Pos [] k h s l = tt
starts-Pos (x ∷ p) [] h s l = absurd (omega arith)
starts-Pos (x ∷ p) (y ∷ k) h s l = ground (arith, starts-Pos p k)

pub Pos-length : (p k : List ℕ) → Pos p → starts p (full k) ≡ true → length p ≤ length k
Pos-length [] k h s = omega arith
Pos-length (x ∷ []) [] h s = ground arith
Pos-length (x ∷ y ∷ p) [] h s = ground arith
Pos-length (x ∷ p) (y ∷ k) h s = ground (arith, Pos-length p k)

-- What a key shares with bytes that are not zero ends before its terminator.
pub Pos-common :
    (bytes k : List ℕ) → Pos bytes → longest_common_prefix (full k) bytes < length (full k)
Pos-common [] [] h = ground arith
Pos-common (x ∷ bytes) [] h = ground arith
Pos-common [] (y ∷ k) h = ground arith
Pos-common (x ∷ bytes) (y ∷ k) h = ground (arith, Pos-common bytes k)

-- Two keys part before either ends.
pub keys_diverge :
    (k l : List ℕ)
    → Pos k
    → Pos l
    → same (full k) (full l) ≡ false
    → (longest_common_prefix (full k) (full l) < length (full k))
      × (longest_common_prefix (full k) (full l) < length (full l))
keys_diverge [] [] p q h = absurd (ground (arith, h))
keys_diverge [] (y ∷ l) p q h = ground arith
keys_diverge (x ∷ k) [] p q h = ground arith
keys_diverge (x ∷ k) (y ∷ l) p q h = ground (arith, keys_diverge k l)

-- What two byte strings share behind a path of both.
pub common-drop :
    (path x y : List ℕ)
    → starts path x ≡ true
    → starts path y ≡ true
    → longest_common_prefix x y
      ≡ length path + longest_common_prefix (drop (length path) x) (drop (length path) y)
common-drop [] x y h i = omega arith
common-drop (b ∷ path) [] y h i = absurd (cc h)
common-drop (b ∷ path) (a ∷ x) [] h i = absurd (cc i)
common-drop (b ∷ path) (a ∷ x) (c ∷ y) h i = ground (arith, common-drop path x y)

middle :
    (bytes : List ℕ) (c : ℕ)
    → c < length bytes
    → take c bytes ++ (get_or bytes c 0 ∷ drop (c + 1) bytes) ≡ bytes
middle [] c h = absurd (omega arith)
middle (b ∷ bytes) zero h = refl
middle (b ∷ bytes) (suc c) h =
    let e : suc c + 1 ≡ suc (c + 1) = omega arith in
    rw e (ap (λ t. b ∷ t) (middle bytes c (omega arith)))

-- The bytes around the one at `c`.
pub around :
    (path bytes : List ℕ) (c : ℕ)
    → c < length bytes
    → ((path ++ take c bytes) ++ (get_or bytes c 0 ∷ [])) ++ drop (c + 1) bytes ≡ path ++ bytes
around path bytes c h = simp append_assoc (ap (λ t. path ++ t) (middle bytes c h))

pub starts-append :
    (xs ys w : List ℕ) → starts (xs ++ ys) w ≡ (starts xs w && starts ys (drop (length xs) w))
starts-append [] ys w = refl
starts-append (x ∷ xs) ys [] = refl
starts-append (x ∷ xs) ys (y ∷ w) = ground (arith, starts-append xs ys w)

starts_more :
    (xs ys w : List ℕ)
    → starts xs w ≡ true
    → starts ys (drop (length xs) w) ≡ true
    → starts (xs ++ ys) w ≡ true
starts_more xs ys w h i = starts-append xs ys w ∙ rw (h, i) refl

starts_byte :
    (p w : List ℕ) (b : ℕ)
    → starts p w ≡ true
    → get_elem? w (length p) ≡ some b
    → starts (p ++ (b ∷ [])) w ≡ true
starts_byte [] [] b h e = absurd (cc e)
starts_byte [] (x ∷ w) b h e = ground (arith, e)
starts_byte (a ∷ p) [] b h e = absurd (cc h)
starts_byte (a ∷ p) (x ∷ w) b h e = ground (arith, starts_byte p w b, e)

pub Stored-byte :
    (p w : List ℕ) (b : ℕ) → Stored p w → get_elem? w (length p) ≡ some b → Stored (p ++ (b ∷ [])) w
Stored-byte p w b (k, (e, s)) i = (k, (e, starts_byte p w b s i))

pub Stored-more :
    (p q w : List ℕ) → Stored p w → starts q (drop (length p) w) ≡ true → Stored (p ++ q) w
Stored-more p q w (k, (e, s)) i = (k, (e, starts_more p q w s i))

-- A path that ends inside a key is not zero anywhere.
pub Stored-Pos : (p w : List ℕ) → Stored p w → length p < length w → Pos p
Stored-Pos p w (k, ((h, e), s)) l =
    let s' : starts p (full k) ≡ true = rw (sym e) s in
    let l' : length p < length (full k) = rw (sym e) l in
    starts-Pos p k h s' (omega (arith, length-append k (0 ∷ [])))

starts_self : (p q : List ℕ) → starts p (p ++ q) ≡ true
starts_self [] q = refl
starts_self (x ∷ p) q = ground (arith, starts_self p q)

starts_front : (xs ys w : List ℕ) → starts (xs ++ ys) w ≡ true → starts xs w ≡ true
starts_front [] ys w h = refl
starts_front (x ∷ xs) ys [] h = absurd (cc h)
starts_front (x ∷ xs) ys (y ∷ w) h = ground (arith, starts_front xs ys w)

pub Pos-Begins : (p : List ℕ) → Pos p → Begins p
Pos-Begins p h = (p, (h, starts_self p (0 ∷ [])))

pub Begins-append : (xs ys : List ℕ) → Begins (xs ++ ys) → Begins xs
Begins-append xs ys (k, (h, s)) = (k, (h, starts_front xs ys (full k) s))

pub Keyed-Begins : (path : List ℕ) (t : Node) → Keyed path t → Begins path
Keyed-Begins path (empty_root slot) h = h
Keyed-Begins path (leaf slot l) (k, ((p, e), s)) = (k, (p, rw (sym e) s))
Keyed-Begins path (prefix slot bytes child) (b, h) = Begins-append path bytes b
Keyed-Begins path (inner slot n children) (p, h) = Pos-Begins path p
Keyed-Begins path (blob_node slot bytes guid) h = Pos-Begins path (Pos-append path bytes h).0
