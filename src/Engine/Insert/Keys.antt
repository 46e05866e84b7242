-- ===== src/Engine/Insert/Keys.antt =====
-- A key without a zero byte fits into a tree of such keys.
use artisan.Prelude.{
  ℕ, ◌≤◌, ◌<◌, ◌≡◌, sym, true, false, List, [], ◌∷◌, ◌++◌, length, drop, arith, length-drop,
  length-append,
}
use artisan.Engine.Key.{longest_common_prefix}
use artisan.Engine.Key.Terminated.{same, starts, full, drop-full}
use artisan.Engine.Tree.{Node, empty_root, leaf, prefix, inner, blob_node}
use artisan.Engine.Tree.Finds.{starts_length}
use artisan.Engine.Tree.Keyed.{
  Pos, Stored, Begins, Keyed, Pos-append, Pos-length, Pos-common, keys_diverge, common-drop,
  Stored-byte, Stored-more,
}
use artisan.Engine.Insert.Steps.{Diverges}
use artisan.Engine.Insert.Answers.{Fits}

leaf_Fits :
    (path w0 key : List ℕ)
    → Stored path w0
    → Stored path key
    → same w0 key ≡ false
    → (length path ≤ length key) × Diverges (drop (length path) w0) (drop (length path) key)
leaf_Fits path w0 key (k, ((p, e), s)) (l, ((q, f), t)) n =
    let n' : same (full k) (full l) ≡ false = rw (sym e, sym f) n in
    let (g, h) = keys_diverge k l p q n' in
    let g' : longest_common_prefix w0 key < length w0 = rw (e, f) g in
    let h' : longest_common_prefix w0 key < length key = rw (e, f) h in
    let c = common-drop path w0 key s t in
    (
      starts_length path key t,
      (
        omega (arith, g', c, length-drop (length path) w0),
        omega (arith, h', c, length-drop (length path) key),
      ),
    )

bytes_Fits :
    (path w0 bytes : List ℕ)
    → Stored path w0
    → Pos (path ++ bytes)
    → longest_common_prefix (drop (length path) w0) bytes < length (drop (length path) w0)
bytes_Fits path w0 bytes (k, ((p, e), s)) h =
    let (h1, h2) = Pos-append path bytes h in
    let s' : starts path (full k) ≡ true = rw (sym e) s in
    let l = Pos-length path k h1 s' in
    rw (e, drop-full k (length path) l) (Pos-common bytes (drop (length path) k) h2)

-- The stored bytes of a key do not end inside those of another.
ends_apart :
    (bytes k k' : List ℕ)
    → Pos k
    → Pos k'
    → starts bytes (full k') ≡ true
    → starts bytes (full k) ≡ false
    → longest_common_prefix (full k) bytes < length (full k)
ends_apart [] k k' p q s e = absurd (cc e)
ends_apart (x ∷ bytes) [] [] p q s e = absurd (ground (arith, s, e))
ends_apart (x ∷ bytes) [] (y ∷ k') p q s e = ground (arith, s)
ends_apart (x ∷ bytes) (a ∷ k) [] p q s e = ground (arith, s)
ends_apart (x ∷ bytes) (a ∷ k) (y ∷ k') p q s e = ground (arith, ends_apart bytes k k', s)

begun_Fits :
    (path bytes k k' : List ℕ)
    → Pos k
    → Pos k'
    → starts path (full k) ≡ true
    → starts (path ++ bytes) (full k') ≡ true
    → starts bytes (drop (length path) (full k)) ≡ false
    → longest_common_prefix (drop (length path) (full k)) bytes
      < length (drop (length path) (full k))
begun_Fits [] bytes k k' p q s t e = ends_apart bytes k k' p q t e
begun_Fits (x ∷ []) [] [] [] p q s t e = absurd (cc e)
begun_Fits (x ∷ []) (y ∷ bytes) [] [] p q s t e = absurd (ground (arith, t))
begun_Fits (x ∷ z ∷ path) bytes [] [] p q s t e = absurd (ground (arith, s))
begun_Fits (x ∷ path) bytes [] (y ∷ k') p q s t e = ground (arith, s, t)
begun_Fits (x ∷ path) bytes (a ∷ k) [] p q s t e = ground (arith, s, t)
begun_Fits (x ∷ path) bytes (a ∷ k) (y ∷ k') p q s t e =
    ground (arith, begun_Fits path bytes k k', s, t)

prefix_Fits :
    (path w0 bytes : List ℕ)
    → Stored path w0
    → Begins (path ++ bytes)
    → starts bytes (drop (length path) w0) ≡ false
    → longest_common_prefix (drop (length path) w0) bytes < length (drop (length path) w0)
prefix_Fits path w0 bytes (k, ((p, e), s)) (k', (q, t)) i =
    let s' : starts path (full k) ≡ true = rw (sym e) s in
    let i' : starts bytes (drop (length path) (full k)) ≡ false = rw (sym e) i in
    rw e (begun_Fits path bytes k k' p q s' t i')

inner_Fits : (path w0 : List ℕ) → Stored path w0 → Pos path → length path < length w0
inner_Fits path w0 (k, ((p, e), s)) h =
    let s' : starts path (full k) ≡ true = rw (sym e) s in
    rw e (omega (arith, Pos-length path k h s', length-append k (0 ∷ [])))

pub Keyed-Fits :
    (t : Node) (path w0 : List ℕ) → Stored path w0 → Keyed path t → Fits t w0 (length path)
Keyed-Fits (empty_root slot) path w0 s h = tt
Keyed-Fits (leaf slot l) path w0 s h = leaf_Fits path w0 l.key s h
Keyed-Fits (prefix slot bytes child) path w0 s (h, i) = (
  λ e.
      let f = Keyed-Fits child (path ++ bytes) w0 (Stored-more path bytes w0 s e) i in
      rw (length-append path bytes) at f,
  λ e. prefix_Fits path w0 bytes s h e,
)
Keyed-Fits (inner slot n children) path w0 s (h, i) = (
  inner_Fits path w0 s h,
  λ b c e f.
      let g = Keyed-Fits (children b) (path ++ (b ∷ [])) w0 (Stored-byte path w0 b s e) (i b c f) in
      rw (length-append path (b ∷ [])) at g,
)
Keyed-Fits (blob_node slot bytes guid) path w0 s h = λ e. bytes_Fits path w0 bytes s h
