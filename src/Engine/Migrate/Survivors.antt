-- ===== src/Engine/Migrate/Survivors.antt =====
-- The copies of the children of an inner node, byte by byte.
use artisan.Prelude.{
  ℕ, zero, suc, ◌+◌, ◌≤◌, ◌<◌, ◌≡◌, refl, sym, Bool, true, false, ◌||◌, Option, none, some, List,
  [], ◌∷◌, ◌==◌, if◌then◌else◌, length, arith, Bool-cases, inl, inr, tests,
}
use artisan.Errors.{Outcome, ok, Returns, returned, Returns-bind, Returns-weaken}
use artisan.Engine.Allocator.{IsRefusal}
use artisan.Engine.Inner.{Cell}
use artisan.Engine.Inner.Finds.{Before, Ascending}
use artisan.Engine.Tree.{Node, slot_of}
use artisan.Engine.Tree.Finds.{slot_of-IsTree}
use artisan.Engine.Migrate.{Survivors, slots, at, survive, clone_cells, clone_bytes}
use artisan.Engine.Migrate.Copied.{IsCopy, Copied, Same, Survive, has_cell, Kept}

length-survive :
    (k : ℕ) (o : Option Node) (ss : Survivors) (n : ℕ)
    → length (slots ss) ≤ n
    → length (slots (survive k o ss)) ≤ suc n
length-survive k none ss n h = omega (arith, h)
length-survive k (some m) ss n h = ground (arith, h)

none-Same : (filter : Bool) (t : Node) (o : Option Node) → Same filter false t o → o ≡ none
none-Same filter t none h = refl
none-Same filter t (some n) h = absurd h

slot_of-copy : (filter : Bool) (t n : Node) → IsCopy filter t n → 1 ≤ slot_of n
slot_of-copy filter t n h = slot_of-IsTree n h.tree

Ascending-survive :
    (filter : Bool) (t : Node) (k : ℕ) (o : Option Node) (ss : Survivors)
    → Same filter true t o
    → Ascending (slots ss)
    → Before k (slots ss)
    → Ascending (slots (survive k o ss))
Ascending-survive filter t k none ss h i p = i
Ascending-survive filter t k (some n) ss h i p = (slot_of-copy filter t n h, (p, i))

Before-survive :
    (k l : ℕ) (o : Option Node) (ss : Survivors)
    → k < l
    → Before k (slots ss)
    → Before k (slots (survive l o ss))
Before-survive k l none ss h p = p
Before-survive k l (some n) ss h p = (h, p)

Same-survive :
    (filter : Bool) (dom : ℕ → Bool) (children : ℕ → Node) (k : ℕ) (o : Option Node)
    (ss : Survivors) (b : ℕ)
    → Same filter true (children k) o
    → Same filter (dom b) (children b) (at ss b)
    → dom k ≡ false
    → Same filter ((k == b) || dom b) (children b) (at (survive k o ss) b)
Same-survive filter dom children k none ss b h i e = elim (Bool-cases (k == b)) [
  | inl j ↦
      let z : k ≡ b = grind tests in
      let i' : Same filter (dom k) (children k) (at ss k) = rw z i in
      let q : at ss k ≡ none = none-Same filter (children k) (at ss k) (rw (sym e) i') in
      let r : (k == k) ≡ true = ground arith in rw (sym z) (rw (r, q) h)
  | inr j ↦ rw j i
]
Same-survive filter dom children k (some n) ss b h i e = elim (Bool-cases (k == b)) [
  | inl j ↦
      let z : k ≡ b = grind tests in let r : (k == k) ≡ true = ground arith in rw (sym z) (rw r h)
  | inr j ↦ rw j i
]

-- One child more, in front of the others.
survive-Survive :
    (filter : Bool) (dom : ℕ → Bool) (children : ℕ → Node) (k : ℕ) (o : Option Node)
    (ss : Survivors)
    → Same filter true (children k) o
    → Survive filter dom children ss
    → Before k (slots ss)
    → dom k ≡ false
    → Survive filter (λ b. (k == b) || dom b) children (survive k o ss)
survive-Survive filter dom children k o ss h (i, j) p e = (
  Ascending-survive filter (children k) k o ss h i p,
  λ b. Same-survive filter dom children k o ss b h (j b) e,
)

Copied-Same :
    {S : Type 0} (filter : Bool) (t : Node) (o : Option Node) (s : S)
    → Copied filter t (o, s)
    → Same filter true t o
Copied-Same filter t none s h = h
Copied-Same filter t (some n) s h = h

has_cell-Before : (k : ℕ) (cells : List Cell) → Before k cells → has_cell cells k ≡ false
has_cell-Before k [] h = refl
has_cell-Before k ((l, c) ∷ cells) h = ground (arith, has_cell-Before k cells)

Before-le : (k l : ℕ) (cells : List Cell) → k < l → Before l cells → Before k cells
Before-le k l [] h b = tt
Before-le k l ((m, c) ∷ cells) h b = (omega (arith, b.0), Before-le k l cells h b.1)

module _ {S : Type 0} (filter : Bool) (children : ℕ → Node)
    (f : ℕ → S → Outcome (Option Node × S)) where
  pub clone_cells-Survive :
      (cells : List Cell) (s : S)
      → Ascending cells
      → ((b : ℕ) (s : S)
          → has_cell cells b ≡ true
          → Returns (Copied filter (children b)) IsRefusal (f b s))
      → Returns
          (Kept filter (λ k. Before k cells) (length cells) (has_cell cells) children)
          IsRefusal
          (clone_cells f cells s)
  clone_cells-Survive [] s a h = returned ((tt, λ b. tt), (λ k l. tt, omega arith))
  clone_cells-Survive ((k, c) ∷ cells) s (p, (q, a)) h =
      let r : (k == k) ≡ true = ground arith in
      Returns-bind (h k s (rw r refl)) (λ (o, s1) u.
        Returns-bind (clone_cells-Survive cells s1 a (λ b s' e. h b s' (ground (arith, e))))
          (λ (ss, s2) (v, (w, x)). returned (
            survive-Survive filter (has_cell cells) children k o ss
                (Copied-Same filter (children k) o s1 u) v (w k q) (has_cell-Before k cells q),
            (
              λ l (m, m'). Before-survive l k o ss m (w l m'),
              length-survive k o ss (length cells) x,
            ),
          )))

-- The bytes of a span for which `there` holds.
unfoldable pub in_span : (ℕ → Bool) → ℕ → ℕ → (ℕ → Bool)
in_span there zero lo = λ b. false
in_span there (suc n) lo =
    if there lo then (λ b. (lo == b) || in_span there n (lo + 1) b) else in_span there n (lo + 1)

span_hit :
    (there : ℕ → Bool) (n lo : ℕ)
    → there lo ≡ true
    → in_span there (suc n) lo ≡ (λ b. (lo == b) || in_span there n (lo + 1) b)
unfolding in_span
span_hit there n lo h = rw h refl

span_miss :
    (there : ℕ → Bool) (n lo : ℕ)
    → there lo ≡ false
    → in_span there (suc n) lo ≡ in_span there n (lo + 1)
unfolding in_span
span_miss there n lo h = rw h refl

below_span : (there : ℕ → Bool) (n lo b : ℕ) → b < lo → in_span there n lo b ≡ false
unfolding in_span
below_span there zero lo b h = refl
below_span there (suc n) lo b h = ground (arith, below_span there n (lo + 1) b)

pub in_span-there :
    (there : ℕ → Bool) (n lo b : ℕ) → lo ≤ b → b < lo + n → in_span there n lo b ≡ there b
unfolding in_span
in_span-there there zero lo b h i = absurd (omega arith)
in_span-there there (suc n) lo b h i = elim (Bool-cases (lo == b)) [
  | inl e ↦
      let z : lo ≡ b = grind tests in
      let r : (b == b) ≡ true = ground arith in rw z (ground (arith, below_span there n (b + 1) b))
  | inr e ↦ ground (arith, in_span-there there n (lo + 1) b)
]

pub in_span_sound : (there : ℕ → Bool) (n lo b : ℕ) → in_span there n lo b ≡ true → there b ≡ true
unfolding in_span
in_span_sound there zero lo b h = absurd (cc h)
in_span_sound there (suc n) lo b h = elim (Bool-cases (there lo)) [
  | inl t ↦ elim (Bool-cases (lo == b)) [
    | inl e ↦ let z : lo ≡ b = grind tests in rw z at t
    | inr e ↦ in_span_sound there n (lo + 1) b (rw (t, e) at h)
  ]
  | inr t ↦ in_span_sound there n (lo + 1) b (rw t at h)
]

module _ {S : Type 0} (filter : Bool) (children : ℕ → Node) (f : ℕ → S → Outcome (Option Node × S))
    (check : ℕ → Outcome Bool) (there : ℕ → Bool) where
  pub clone_bytes-Survive :
      (n lo : ℕ) (s : S)
      → ((b : ℕ) → check b ≡ ok (there b))
      → ((b : ℕ) (s : S) → there b ≡ true → Returns (Copied filter (children b)) IsRefusal (f b s))
      → Returns
          (Kept filter (λ k. k < lo) n (in_span there n lo) children)
          IsRefusal
          (clone_bytes f check n lo s)
  unfolding in_span clone_bytes
  clone_bytes-Survive zero lo s e h = returned ((tt, λ b. tt), (λ k l. tt, omega arith))
  clone_bytes-Survive (suc n) lo s e h = elim (Bool-cases (there lo)) [
    | inl t ↦
        rw (span_hit there n lo t, e lo, t)
          (Returns-bind (h lo s t) (λ (o, s1) u.
            Returns-bind (clone_bytes-Survive n (lo + 1) s1 e h) (λ (ss, s2) (v, (w, x)). returned (
              survive-Survive filter (in_span there n (lo + 1)) children lo o ss
                  (Copied-Same filter (children lo) o s1 u) v (w lo (omega arith))
                  (below_span there n (lo + 1) lo (omega arith)),
              (λ l m. Before-survive l lo o ss m (w l (omega arith)), length-survive lo o ss n x),
            ))))
    | inr t ↦
        rw (span_miss there n lo t, e lo, t)
          (Returns-weaken (clone_bytes-Survive n (lo + 1) s e h)
            (λ (ss, s2) (v, (w, x)). (v, (λ l m. w l (omega arith), omega (arith, x)))))
  ]
