-- ===== src/Api/KeyPath/Segments.antt =====
-- The segments of a key are read back from it.
use artisan.Prelude.{
  ℕ, ◌≤◌, ◌≡◌, refl, sym, ap, ◌∙◌, false, none, some, List, [], ◌∷◌, ◌++◌, ◌==◌, if◌then◌else◌,
  length, arith, Bool-cases, Option-cases, inl, inr, append-nil, append_assoc, length-append,
}
use artisan.Engine.Tree.Keyed.{Pos}
use artisan.Api.KeyPath.{
  KeyPathError, Built, built, rejected, delimiter, nul, contains, ends_with, validate_segment,
  delimited, push, push_all, and_then,
}

-- A segment that is not rejected has bytes, none of them a delimiter or zero.
abbrev pub IsSegment : List ℕ → Type 0
IsSegment s = (1 ≤ length s) × ((contains delimiter s ≡ false) × (contains nul s ≡ false))

validate_segment-IsSegment : (s : List ℕ) → validate_segment s ≡ none → IsSegment s
unfolding validate_segment
validate_segment-IsSegment s h = ground (arith, h)

-- What is between the delimiters.
abbrev pub parts_from : List ℕ → List ℕ → List (List ℕ)
parts_from part [] = part ∷ []
parts_from part (b ∷ bytes) =
    if b == delimiter then part ∷ parts_from [] bytes else parts_from (part ++ (b ∷ [])) bytes

parts_segment :
    (part s bytes : List ℕ)
    → contains delimiter s ≡ false
    → parts_from part (s ++ bytes) ≡ parts_from (part ++ s) bytes
parts_segment part [] bytes h = ap (λ p. parts_from p bytes) (sym (append-nil part))
parts_segment part (b ∷ s) bytes h = elim (Bool-cases (b == 47)) [
  | inl e ↦ absurd (ground (arith, h))
  | inr e ↦ rw e (
      parts_segment (part ++ (b ∷ [])) s bytes (ground (arith, h))
      ∙ ap (λ p. parts_from p bytes) (append_assoc part (b ∷ []) s))
]

-- The bytes behind a first segment.
abbrev behind : List (List ℕ) → List ℕ
behind [] = []
behind (s ∷ segments) = delimiter ∷ (s ++ behind segments)

abbrev Segments : List (List ℕ) → Type 0
Segments [] = Unit {0}
Segments (s ∷ segments) = IsSegment s × Segments segments

parts-behind :
    (part : List ℕ) (segments : List (List ℕ))
    → Segments segments
    → parts_from part (behind segments) ≡ part ∷ segments
parts-behind part [] h = refl
parts-behind part (s ∷ segments) (h, hs) =
    ap (λ t. part ∷ t) (parts_segment [] s (behind segments) h.1.0 ∙ parts-behind s segments hs)

ends-segment : (s : List ℕ) → contains delimiter s ≡ false → ends_with delimiter s ≡ false
ends-segment [] h = refl
ends-segment (b ∷ []) h = ground (arith, h)
ends-segment (b ∷ c ∷ s) h = ends-segment (c ∷ s) (ground (arith, h))

ends-append :
    (bytes s : List ℕ) → 1 ≤ length s → ends_with delimiter (bytes ++ s) ≡ ends_with delimiter s
ends-append [] s h = refl
ends-append (b ∷ []) [] h = absurd (omega arith)
ends-append (b ∷ []) (c ∷ s) h = refl
ends-append (b ∷ c ∷ bytes) s h = ends-append (c ∷ bytes) s h

-- Bytes behind which a delimiter is put.
abbrev Open : List ℕ → Type 0
Open bytes = (1 ≤ length bytes) × (ends_with delimiter bytes ≡ false)

Open-append : (bytes s : List ℕ) → IsSegment s → Open (bytes ++ s)
Open-append bytes s (h, (i, j)) =
    (rw (length-append bytes s) (omega (arith, h)), ends-append bytes s h ∙ ends-segment s i)

delimited-Open : (bytes : List ℕ) → Open bytes → delimited bytes ≡ bytes ++ (delimiter ∷ [])
delimited-Open bytes (h, i) = ground (arith, h, i)

push_segment :
    (bytes s : List ℕ) → validate_segment s ≡ none → push bytes s ≡ built (delimited bytes ++ s)
unfolding push
push_segment bytes s h = rw (h, push) refl

push_other :
    (bytes s : List ℕ) (e : KeyPathError) → validate_segment s ≡ some e → push bytes s ≡ rejected e
unfolding push
push_other bytes s e h = rw (h, push) refl

no_built :
    (acc s : List ℕ) (x : KeyPathError) (f : List ℕ → Built) (bytes : List ℕ)
    → validate_segment s ≡ some x
    → ¬ (and_then (push acc s) f ≡ built bytes)
no_built acc s x f bytes e h =
    let h' : rejected x ≡ built bytes = rw (push_other acc s x e) at h in absurd (cc h')

push_all-behind :
    (acc : List ℕ) (segments : List (List ℕ)) (bytes : List ℕ)
    → Open acc
    → push_all acc segments ≡ built bytes
    → Segments segments × (bytes ≡ acc ++ behind segments)
push_all-behind acc [] bytes o h = (tt, ground (arith, h, append-nil acc))
push_all-behind acc (s ∷ segments) bytes o h = elim (Option-cases (validate_segment s)) [
  | inl e ↦
      let i = validate_segment-IsSegment s e in
      let p : push acc s ≡ built ((acc ++ (delimiter ∷ [])) ++ s) =
        push_segment acc s e ∙ ap (λ t. built (t ++ s)) (delimited-Open acc o) in
      let h' : push_all ((acc ++ (delimiter ∷ [])) ++ s) segments ≡ built bytes = rw p at h in
      let (is, q) =
        push_all-behind ((acc ++ (delimiter ∷ [])) ++ s) segments bytes
          (Open-append (acc ++ (delimiter ∷ [])) s i) h' in
      ((i, is), q ∙ simp append_assoc refl)
  | inr (x, e) ↦ absurd (no_built acc s x _ bytes e h)
]

Pos-segment : (s bytes : List ℕ) → contains nul s ≡ false → Pos bytes → Pos (s ++ bytes)
Pos-segment [] bytes h p = p
Pos-segment (b ∷ s) bytes h p = ground (arith, Pos-segment s bytes, h)

Pos-behind : (segments : List (List ℕ)) → Segments segments → Pos (behind segments)
Pos-behind [] h = tt
Pos-behind (s ∷ segments) (h, hs) =
    (omega arith, Pos-segment s (behind segments) h.1.1 (Pos-behind segments hs))

-- When pushing a first segment and then others onto an empty key is not rejected, the key splits at
-- its delimiters into these segments, so that no two lists of segments have the same key, and no
-- byte of it is zero, so that it fits into a tree of such keys.
pub push_all-parts :
    (s : List ℕ) (segments : List (List ℕ)) (bytes : List ℕ)
    → push_all [] (s ∷ segments) ≡ built bytes
    → (parts_from [] bytes ≡ s ∷ segments) × Pos bytes
push_all-parts s segments bytes h = elim (Option-cases (validate_segment s)) [
  | inl e ↦
      let i = validate_segment-IsSegment s e in
      let h' : push_all s segments ≡ built bytes = rw (push_segment [] s e) at h in
      let (is, q) = push_all-behind s segments bytes (Open-append [] s i) h' in
      (
        rw q (parts_segment [] s (behind segments) i.1.0 ∙ parts-behind s segments is),
        rw q (Pos-segment s (behind segments) i.1.1 (Pos-behind segments is)),
      )
  | inr (x, e) ↦ absurd (no_built [] s x _ bytes e h)
]
