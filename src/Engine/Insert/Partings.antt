-- ===== src/Engine/Insert/Partings.antt =====
-- Where two byte strings part.
use artisan.Prelude.{
  ℕ, zero, suc, ◌+◌, ◌≤◌, ◌<◌, ◌≡◌, ◌≢◌, refl, true, some, List, [], ◌∷◌, ◌==◌, if◌then◌else◌,
  length, take, drop, get_elem?, get_or, arith, Bool-cases, inl, inr,
}
use artisan.Engine.Key.{longest_common_prefix}
use artisan.Engine.Key.Terminated.{starts}
use artisan.Engine.Tree.{LookupResult, not_found}
use artisan.Engine.Tree.Finds.{pick}

pub common_starts : (x y : List ℕ) → (longest_common_prefix x y == length y) ≡ starts y x
common_starts [] [] = ground arith
common_starts [] (b ∷ y) = ground arith
common_starts (a ∷ x) [] = ground arith
common_starts (a ∷ x) (b ∷ y) = ground (arith, common_starts x y)

pub common_bound : (x y : List ℕ) → longest_common_prefix x y ≤ length y
common_bound [] y = omega arith
common_bound (a ∷ x) [] = omega arith
common_bound (a ∷ x) (b ∷ y) = ground (arith, common_bound x y)

pub starts-common : (x y : List ℕ) → starts (take (longest_common_prefix x y) y) x ≡ true
starts-common [] y = refl
starts-common (a ∷ x) [] = refl
starts-common (a ∷ x) (b ∷ y) = ground (arith, starts-common x y)

pub common_apart :
    (x y : List ℕ) (p q : ℕ)
    → get_elem? x (longest_common_prefix x y) ≡ some p
    → get_elem? y (longest_common_prefix x y) ≡ some q
    → p ≢ q
common_apart [] y p q e f = absurd (cc e)
common_apart (a ∷ x) [] p q e f = absurd (cc f)
common_apart (a ∷ x) (b ∷ y) p q e f = ground (arith, common_apart x y p q)

pub get_elem?-or : (y : List ℕ) (c : ℕ) → c < length y → get_elem? y c ≡ some (get_or y c 0)
get_elem?-or [] c h = absurd (omega arith)
get_elem?-or (b ∷ y) zero h = refl
get_elem?-or (b ∷ y) (suc c) h = get_elem?-or y c (omega arith)

pub starts_take : (c : ℕ) (y : List ℕ) → starts (take c y) y ≡ true
starts_take zero y = refl
starts_take (suc c) [] = refl
starts_take (suc c) (b ∷ y) = ground (arith, starts_take c y)

-- What is behind `c` bytes of `r`, when `y` has `c` bytes and more.
pub starts_at :
    (c : ℕ) (y r : List ℕ) (v : LookupResult)
    → c < length y
    → (if starts y r then v else not_found) ≡ (
        if starts (take c y) r
        then pick (get_elem? r c) (λ b.
          if b == get_or y c 0
          then if starts (drop (c + 1) y) (drop (c + 1) r) then v else not_found
          else not_found)
        else not_found)
starts_at c [] r v h = absurd (omega arith)
starts_at zero (b ∷ y) [] v h = refl
starts_at zero (b ∷ y) (a ∷ r) v h = ground arith
starts_at (suc c) (b ∷ y) [] v h = refl
starts_at (suc c) (b ∷ y) (a ∷ r) v h =
    let e : suc c + 1 ≡ suc (c + 1) = omega arith in
    let ih = starts_at c y r v (omega arith) in
    rw e (elim (Bool-cases (a == b)) [ inl i ↦ rw i ih | inr i ↦ rw i refl ])
