-- ===== src/Engine/Spillover/Scores.antt =====
-- The order of the candidates.
use artisan.Prelude.{
  ltb, ◌==◌, ◌||◌, not, refl, ◌∙◌, inl, inr, Bool-cases, ℕ, List, [], ◌∷◌, ◌≡◌, Bool, true, false,
  if◌then◌else◌, arith,
}
use artisan.Engine.Spillover.Victims.{
  VictimCandidate, differ, in_band, candidate_tie_in_band, abs_diff, spillover_target_child_bytes,
  candidate_tie, candidate_is_better,
}

-- Only the order of the scores counts.
tie_scores :
    (c b : VictimCandidate) (s t s' t' : ℕ)
    → (s == t) ≡ (s' == t')
    → ltb s t ≡ ltb s' t'
    → candidate_tie c b s t ≡ candidate_tie c b s' t'
unfolding candidate_tie
tie_scores c b s t s' t' e f = ground (arith, e, f)

abbrev distance : VictimCandidate → ℕ
distance c = abs_diff c.footprint.bytes spillover_target_child_bytes

-- Outside the band the distance from the target counts.
better_outside :
    (c b : VictimCandidate)
    → in_band c.footprint.bytes ≡ false
    → in_band b.footprint.bytes ≡ false
    → candidate_is_better c b ≡ candidate_tie c b (distance c) (distance b)
unfolding candidate_is_better
better_outside c b h i =
    let cb = c.footprint.bytes in
    let bb = b.footprint.bytes in
    ground (
      arith,
      h,
      i,
      tie_scores c b bb cb (distance c) (distance b),
      tie_scores c b cb bb (distance c) (distance b),
    )

better_inside :
    (c b : VictimCandidate)
    → in_band c.footprint.bytes ≡ true
    → in_band b.footprint.bytes ≡ true
    → candidate_is_better c b ≡ candidate_tie_in_band c b (distance c) (distance b)
unfolding candidate_is_better
better_inside c b h i = ground (arith, h, i)

better_mixed :
    (c b : VictimCandidate)
    → differ (in_band c.footprint.bytes) (in_band b.footprint.bytes) ≡ true
    → candidate_is_better c b ≡ in_band c.footprint.bytes
unfolding candidate_is_better
better_mixed c b h = rw h refl

-- The first place at which two lists of scores differ decides; `last` decides between equal ones.
abbrev pub first_lower : List ℕ → List ℕ → Bool → Bool
first_lower [] ys last = last
first_lower (x ∷ xs) [] last = last
first_lower (x ∷ xs) (y ∷ ys) last = if x == y then first_lower xs ys last else ltb x y

abbrev pub penalty : Bool → ℕ
penalty wanted = if wanted then 0 else 1

-- The scores of a candidate, lower ones being better: whether its size is in the band; in the band,
-- whether it starts at a path component; its distance from the target size; whether it starts at a
-- path component; the depth of its boundary.
abbrev pub scores : VictimCandidate → List ℕ
scores c =
    penalty (in_band c.footprint.bytes)
    ∷ penalty (c.path_component || not (in_band c.footprint.bytes))
    ∷ distance c
    ∷ penalty c.path_component
    ∷ c.boundary_depth
    ∷ []

-- Of two candidates one is better by the first of these that differs: a size in the band between the
-- least and the target size; in the band, a start at a path component; a smaller distance from the
-- target size; a start at a path component; a smaller depth of the boundary; and more nodes.
pub candidate_is_better-scores :
    (c b : VictimCandidate)
    → candidate_is_better c b
      ≡ first_lower (scores c) (scores b) (ltb b.footprint.nodes c.footprint.nodes)
unfolding candidate_tie
candidate_is_better-scores c b = elim (Bool-cases (in_band c.footprint.bytes)) [
  | inl h ↦ elim (Bool-cases (in_band b.footprint.bytes)) [
    | inl i ↦ better_inside c b h i ∙ rw (h, i) (ground arith)
    | inr i ↦ better_mixed c b (rw (h, i) refl) ∙ rw (h, i) refl
  ]
  | inr h ↦ elim (Bool-cases (in_band b.footprint.bytes)) [
    | inl i ↦ better_mixed c b (rw (h, i) refl) ∙ rw (h, i) refl
    | inr i ↦ better_outside c b h i ∙ rw (h, i) (ground arith)
  ]
]
