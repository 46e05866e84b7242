-- ===== src/Engine/Merge/Pairs.antt =====
-- The bytes of an inner node with the slots of their children.
use artisan.Prelude.{
  ℕ, zero, suc, ◌+◌, ◌-◌, ◌≤◌, ◌<◌, ◌≡◌, refl, sym, ◌∙◌, true, false, some, List, [], ◌∷◌, ◌==◌,
  get_or, arith, Bool-cases, inl, inr, tests,
}
use artisan.Errors.{ok}
use artisan.Engine.Inner.{Cell, Inner, cells4, cells16, table48, table256, find_byte}
use artisan.Engine.Inner.Finds.{Before, Ascending, IsInner, IsTable, child_of}
use artisan.Engine.Migrate.{check_48}
use artisan.Engine.Merge.{pairs_48, pairs_256, pairs_of}

-- The cells of an inner node.
abbrev pub Pairs : Inner → ℕ → List Cell → Type 0
Pairs n lo cells =
    Ascending cells
    × (((k : ℕ) → k < lo → Before k cells)
        × ((b c : ℕ) → find_byte b cells ≡ some c → child_of n b ≡ some c))

put-Pairs :
    (n : Inner) (lo c : ℕ) (cells : List Cell)
    → child_of n lo ≡ some c
    → 1 ≤ c
    → Pairs n (lo + 1) cells
    → Pairs n lo ((lo, c) ∷ cells)
put-Pairs n lo c cells e p (a, (q, f)) = (
  (p, (q lo (omega arith), a)),
  (
    λ k l. (l, q k (omega (arith, l))),
    λ b c' h. elim (Bool-cases (lo == b)) [
      | inl z ↦ let y : lo ≡ b = grind tests in rw (sym y) (e ∙ found_here lo b c c' cells z h)
      | inr z ↦ f b c' (rw z at h)
    ],
  ),
)
  where
    found_here :
        (lo b c c' : ℕ) (cells : List Cell)
        → (lo == b) ≡ true
        → find_byte b ((lo, c) ∷ cells) ≡ some c'
        → some c ≡ some c'
    found_here lo b c c' cells z h = rw z at h

pairs_48-Pairs :
    (count : ℕ) (index : ℕ → ℕ) (places : List ℕ) (m lo : ℕ)
    → IsTable count index places
    → (cells : List Cell) × ((pairs_48 index places m lo ≡ ok cells)
        × Pairs (table48 count index places) lo cells)
unfolding pairs_48
pairs_48-Pairs count index places zero lo h =
    ([], (refl, (tt, (λ k l. tt, λ b c e. absurd (cc e)))))
pairs_48-Pairs count index places (suc m) lo h =
    let (cells, (e, (a, (q, f)))) = pairs_48-Pairs count index places m (lo + 1) h in
    elim (Bool-cases (index lo == 0)) [
      | inl z ↦ (cells, (rw z e, (a, (λ k l. q k (omega (arith, l)), f))))
      | inr z ↦
          let y : check_48 index lo ≡ ok true = ground (arith, h.places lo, z) in
          (
            (lo, get_or places (index lo - 1) 0) ∷ cells,
            (
              rw (y, e) refl,
              put-Pairs (table48 count index places) lo (get_or places (index lo - 1) 0) cells
                  (rw z refl) (h.taken lo (ground (arith, z))) (a, (q, f)),
            ),
          )
    ]

pairs_256-Pairs :
    (count : ℕ) (child : ℕ → ℕ) (m lo : ℕ) → Pairs (table256 count child) lo (pairs_256 child m lo)
unfolding pairs_256
pairs_256-Pairs count child zero lo = (tt, (λ k l. tt, λ b c e. absurd (cc e)))
pairs_256-Pairs count child (suc m) lo =
    let (a, (q, f)) = pairs_256-Pairs count child m (lo + 1) in
    elim (Bool-cases (child lo == 0)) [
      | inl z ↦ rw z (a, (λ k l. q k (omega (arith, l)), f))
      | inr z ↦ rw z (
          put-Pairs (table256 count child) lo (child lo) (pairs_256 child m (lo + 1)) (rw z refl)
            (ground (arith, z)) (a, (q, f)))
    ]

pub pairs_of-Pairs :
    (n : Inner) → IsInner n → (cells : List Cell) × ((pairs_of n ≡ ok cells) × Pairs n 0 cells)
unfolding pairs_of
pairs_of-Pairs (cells4 cells) (a, l) =
    (cells, (refl, (a, (λ k h. absurd (omega (arith, h)), λ b c e. e))))
pairs_of-Pairs (cells16 cells) (a, l) =
    (cells, (refl, (a, (λ k h. absurd (omega (arith, h)), λ b c e. e))))
pairs_of-Pairs (table48 count index places) h = pairs_48-Pairs count index places 256 0 h
pairs_of-Pairs (table256 count child) h =
    (pairs_256 child 256 0, (refl, pairs_256-Pairs count child 256 0))

-- Later cells have other keys.
pub find-later :
    (b k c : ℕ) (cells : List Cell) → Before k cells → find_byte b cells ≡ some c → (k == b) ≡ false
find-later b k c [] h e = absurd (cc e)
find-later b k c ((l, d) ∷ cells) h e = ground (arith, find-later b k c cells, h, e)
