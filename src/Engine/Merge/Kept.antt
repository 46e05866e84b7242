-- ===== src/Engine/Merge/Kept.antt =====
-- A pass keeps what lookups find through the blobs: one inner node at a time.
use artisan.Prelude.{
  ℕ, ◌+◌, ◌≡◌, refl, sym, ap, ◌∙◌, true, false, Option, none, some, List, [], ◌∷◌, ◌==◌,
  if◌then◌else◌, get_elem?, arith, Bool-cases, Option-cases, inl, inr, tests,
}
use artisan.Errors.{Outcome, ok, Post, good, Post-bind}
use artisan.Engine.Inner.{Cell, Inner, find_byte, inner_update_child, put_at}
use artisan.Engine.Inner.Finds.{Ascending, IsInner, child_of}
use artisan.Engine.Inner.Adds.{Puts}
use artisan.Engine.Inner.Updates.{inner_update_child-Puts}
use artisan.Engine.Tree.{Node, inner, slot_of}
use artisan.Engine.Tree.Finds.{IsTree, slot_of-IsTree, look, pick, follow}
use artisan.Engine.Migrate.Images.{Image}
use artisan.Engine.Migrate.Copied.{Bytes}
use artisan.Engine.Merge.Pairs.{find-later}
use artisan.Engine.Forest.{Hit, Reads}
use artisan.Engine.Merge.{Pass, merge_pairs}

-- A child that is told again is the same.
pub same_child :
    (n : Inner) (b b' c s : ℕ)
    → child_of n b ≡ some c
    → s ≡ c
    → child_of n b' ≡ (if b == b' then some s else child_of n b')
same_child n b b' c s e q = elim (Bool-cases (b == b')) [
  | inl z ↦ let r : b ≡ b' = grind tests in rw z (ap (child_of n) (sym r) ∙ e ∙ ap some (sym q))
  | inr z ↦ rw z refl
]

module _ (pin : ℕ → Outcome Image) where
  -- Lookups of keys of bytes come to the same in `n` as in `t`.
  pub record IsSame (t n : Node) : Type 0 where
    pub tree : IsTree n
    pub forth :
        (w : List ℕ) (d : ℕ) (h : Hit)
        → Bytes w
        → Reads pin w (look t w d) h
        → Reads pin w (look n w d) h
    pub back :
        (w : List ℕ) (d : ℕ) (h : Hit)
        → Bytes w
        → Reads pin w (look n w d) h
        → Reads pin w (look t w d) h

  pub same_itself : (t : Node) → IsTree t → IsSame t t
  same_itself t i = record { tree = i; forth = λ w d h b r. r; back = λ w d h b r. r }

  module _ (n0 : Inner) (children0 : ℕ → Node) where
    pub record IsKept (n : Inner) (children : ℕ → Node) : Type 0 where
      pub shape : IsInner n
      pub lost : (b : ℕ) → child_of n0 b ≡ none → child_of n b ≡ none
      pub kept :
          (b c : ℕ)
          → child_of n0 b ≡ some c
          → (child_of n b ≡ some (slot_of (children b))) × IsSame (children0 b) (children b)

    pub put-IsKept :
        (n n' : Inner) (children : ℕ → Node) (b c : ℕ) (x : Node)
        → IsKept n children
        → child_of n b ≡ some c
        → IsSame (children0 b) x
        → Puts n b (slot_of x) n'
        → IsKept n' (put_at children b x)
    put-IsKept n n' children b c x k e s (i, p) = record {
      shape = i;
      lost = λ b' l. elim (Bool-cases (b == b')) [
        | inl z ↦
            let q : b ≡ b' = grind tests in absurd (cc (sym e, ap (child_of n) q, k.lost b' l))
        | inr z ↦ p b' ∙ rw z (k.lost b' l)
      ];
      kept = λ b' c' l. elim (Bool-cases (b == b')) [
        | inl z ↦
            let q : b ≡ b' = grind tests in
            let r : (b == b) ≡ true = ground arith in
            let pb = p b in rw (sym q) (rw r (rw r at pb, s))
        | inr z ↦
            let r : (b' == b) ≡ false = ground (arith, z) in
            let (f, y) = k.kept b' c' l in rw r (p b' ∙ rw z f, y)
      ];
    }

    -- A child that has its old slot needs no update.
    told :
        (n : Inner) (children : ℕ → Node) (b c : ℕ) (x : Node)
        → IsKept n children
        → child_of n b ≡ some c
        → IsSame (children0 b) x
        → (n' : Inner) × (((if slot_of x == c then ok n else inner_update_child n b (slot_of x))
              ≡ ok n')
            × (Puts n b (slot_of x) n' × IsKept n' (put_at children b x)))
    told n children b c x k e s = elim (Bool-cases (slot_of x == c)) [
      | inl z ↦
          let q : slot_of x ≡ c = grind tests in
          let p : Puts n b (slot_of x) n = (k.shape, λ b'. same_child n b b' c (slot_of x) e q) in
          (n, (rw z refl, (p, put-IsKept n n children b c x k e s p)))
      | inr z ↦
          let (n', (f, p)) =
            inner_update_child-Puts n b (slot_of x) c k.shape e (slot_of-IsTree x s.tree) in
          (n', (rw z f, (p, put-IsKept n n' children b c x k e s p)))
    ]

    module _ (f : ℕ → Pass → Outcome (Node × Pass)) where
      pub merge_pairs-IsKept :
          (cells : List Cell) (n : Inner) (children : ℕ → Node) (p : Pass)
          → Ascending cells
          → ((b c : ℕ) (q : Pass)
              → find_byte b cells ≡ some c
              → Post (λ (r : Node × Pass). IsSame (children0 b) r.0) (f b q))
          → ((b c : ℕ) → find_byte b cells ≡ some c → child_of n b ≡ some c)
          → IsKept n children
          → Post
              (λ (r : (Inner × (ℕ → Node)) × Pass). IsKept r.0.0 r.0.1)
              (merge_pairs f cells n children p)
      merge_pairs-IsKept [] n children p a h g k = good k
      merge_pairs-IsKept ((b, c) ∷ cells) n children p (l, (q, a)) h g k =
          let r : (b == b) ≡ true = ground arith in
          Post-bind (h b c p (rw r refl)) (λ (x, p1) s.
            let e : child_of n b ≡ some c = g b c (rw r refl) in
            let (n', (z, (u, k'))) = told n children b c x k e s in
            rw z (
              merge_pairs-IsKept cells n' (put_at children b x) p1 a
                (λ b' c' q' e'. h b' c' q' (rw (find-later b' b c' cells q e') e'))
                (λ b' c' e'.
                  let m = find-later b' b c' cells q e' in u.1 b' ∙ rw m (g b' c' (rw m e')))
                k'))

  pub start-IsKept :
      (slot : ℕ) (n : Inner) (children : ℕ → Node)
      → IsTree (inner slot n children)
      → IsKept n children n children
  start-IsKept slot n children (i, (m, h)) = record {
    shape = m;
    lost = λ b z. z;
    kept = λ b c z. let (y, v) = h b c z in (z ∙ ap some (sym y), same_itself (children b) v);
  }

  -- An inner node whose children are the same.
  pub inner-IsSame :
      (slot : ℕ) (n n' : Inner) (children children' : ℕ → Node)
      → IsTree (inner slot n children)
      → IsKept n children n' children'
      → IsSame (inner slot n children) (inner slot n' children')
  inner-IsSame slot n n' children children' (p, (i, t)) k = record {
    tree = (
      p,
      (
        k.shape,
        λ b c e. elim (Option-cases (child_of n b)) [
          | inl z ↦ absurd (cc (k.lost b z, e))
          | inr (c0, z) ↦ let (f, y) = k.kept b c0 z in (ground (arith, f, e), y.tree)
        ],
      ),
    );
    forth = λ w d h bs. step_forth w d h bs (get_elem? w d);
    back = λ w d h bs. step_back w d h bs (get_elem? w d);
  }
    where
      step_forth :
          (w : List ℕ) (d : ℕ) (h : Hit)
          → Bytes w
          → (o : Option ℕ)
          → Reads pin w (pick o (λ b. follow (child_of n b) (look (children b) w (d + 1)))) h
          → Reads pin w (pick o (λ b. follow (child_of n' b) (look (children' b) w (d + 1)))) h
      step_forth w d h bs none r = r
      step_forth w d h bs (some b) r = elim (Option-cases (child_of n b)) [
        | inl z ↦ rw (k.lost b z) (rw z at r)
        | inr (c0, z) ↦ let (f, y) = k.kept b c0 z in rw f (y.forth w (d + 1) h bs (rw z at r))
      ]

      step_back :
          (w : List ℕ) (d : ℕ) (h : Hit)
          → Bytes w
          → (o : Option ℕ)
          → Reads pin w (pick o (λ b. follow (child_of n' b) (look (children' b) w (d + 1)))) h
          → Reads pin w (pick o (λ b. follow (child_of n b) (look (children b) w (d + 1)))) h
      step_back w d h bs none r = r
      step_back w d h bs (some b) r = elim (Option-cases (child_of n b)) [
        | inl z ↦ rw z (rw (k.lost b z) at r)
        | inr (c0, z) ↦ let (f, y) = k.kept b c0 z in rw z (y.back w (d + 1) h bs (rw f at r))
      ]
