-- ===== src/Engine/Insert/Parents.antt =====
-- A parent with another child.
use artisan.Prelude.{
  ℕ, ◌+◌, ◌≤◌, ◌≡◌, refl, sym, ap, ◌∙◌, Bool, true, false, ◌&&◌, Option, none, some, List, [], ◌∷◌,
  ◌==◌, tests, if◌then◌else◌, arith, Bool-cases, inl, inr, ◌++◌,
}
use artisan.Errors.{ok}
use artisan.Engine.Key.Terminated.{same}
use artisan.Engine.Inner.{Inner, inner_update_child, put_at}
use artisan.Engine.Inner.Finds.{IsInner, child_of}
use artisan.Engine.Inner.Adds.{Puts}
use artisan.Engine.Inner.Updates.{inner_update_child-Puts}
use artisan.Engine.Tree.{Node, inner, slot_of, LookupResult, not_found}
use artisan.Engine.Tree.Finds.{IsTree, pick, follow, look}
use artisan.Engine.Tree.Keyed.{Pos, Keyed}

module _ (w0 : List ℕ) where
  pub prefix_look :
      (t u : Bool) (s : Bool) (v x y : LookupResult)
      → (s ≡ true → u ≡ true)
      → x ≡ (if t && s then v else y)
      → (if u then x else not_found) ≡ (if t && s then v else if u then y else not_found)
  prefix_look true true s v x y h e = e
  prefix_look true false s v x y h e = ground (arith, h)
  prefix_look false true s v x y h e = e
  prefix_look false false s v x y h e = refl

  pub inner_look :
      (t : Bool) (n n' : Inner) (children : ℕ → Node) (x : Node) (b0 c d : ℕ) (v : LookupResult)
      (w : List ℕ) (o : Option ℕ)
      → Puts n b0 c n'
      → (same w w0 ≡ true → o ≡ some b0)
      → look x w (d + 1)
        ≡ (if t && same w w0 then v else follow (child_of n b0) (look (children b0) w (d + 1)))
      → pick o (λ b. follow (child_of n' b) (look (put_at children b0 x b) w (d + 1))) ≡ (
          if t && same w w0
          then v
          else pick o (λ b. follow (child_of n b) (look (children b) w (d + 1))))
  inner_look t n n' children x b0 c d v w none p h e = elim (Bool-cases (same w w0)) [
    | inl s ↦ absurd (cc (h s))
    | inr s ↦ rw s (ground arith)
  ]
  inner_look t n n' children x b0 c d v w (some b) (i, p) h e = elim (Bool-cases (b0 == b)) [
    | inl q ↦
        let z : b ≡ b0 = grind tests in
        let q0 : (b0 == b0) ≡ true = ground arith in rw (z, p b0, q0) e
    | inr q ↦
        let q' : (b == b0) ≡ false = ground (arith, q) in
        elim (Bool-cases (same w w0)) [
          | inl s ↦ absurd (ground (arith, q, h s))
          | inr s ↦ rw (p b, q, q', s) (ground arith)
        ]
  ]

pub inner_IsTree :
    (slot : ℕ) (n n' : Inner) (children : ℕ → Node) (x : Node) (b0 : ℕ)
    → 1 ≤ slot
    → Puts n b0 (slot_of x) n'
    → IsTree x
    → ((b c : ℕ) → child_of n b ≡ some c → (slot_of (children b) ≡ c) × IsTree (children b))
    → IsTree (inner slot n' (put_at children b0 x))
inner_IsTree slot n n' children x b0 l (i, p) t h = (
  l,
  (
    i,
    λ b c e. elim (Bool-cases (b0 == b)) [
      | inl q ↦
          let z : b ≡ b0 = grind tests in
          let q0 : (b0 == b0) ≡ true = ground arith in
          let pb : child_of n' b ≡ some (slot_of x) = p b ∙ rw q refl in
          let f : some (slot_of x) ≡ some c = sym pb ∙ e in
          let y : slot_of x ≡ c = ground (arith, f) in rw (z, q0) (y, t)
      | inr q ↦
          let q' : (b == b0) ≡ false = ground (arith, q) in
          rw q' (h b c (sym (p b ∙ rw q refl) ∙ e))
    ],
  ),
)

pub inner_Keyed :
    (slot : ℕ) (n n' : Inner) (children : ℕ → Node) (x : Node) (b0 : ℕ) (path : List ℕ)
    → Puts n b0 (slot_of x) n'
    → Pos path
    → ((b c : ℕ) → child_of n b ≡ some c → Keyed (path ++ (b ∷ [])) (children b))
    → Keyed (path ++ (b0 ∷ [])) x
    → Keyed path (inner slot n' (put_at children b0 x))
inner_Keyed slot n n' children x b0 path (i, p) y h t = (
  y,
  λ b c e. elim (Bool-cases (b0 == b)) [
    | inl q ↦
        let z : b ≡ b0 = grind tests in let q0 : (b0 == b0) ≡ true = ground arith in rw (z, q0) t
    | inr q ↦
        let q' : (b == b0) ≡ false = ground (arith, q) in rw q' (h b c (sym (p b ∙ rw q refl) ∙ e))
  ],
)

pub stays :
    (b0 b' c s : ℕ) (n : Inner)
    → (s == c) ≡ true
    → child_of n b0 ≡ some c
    → child_of n b' ≡ (if b0 == b' then some s else child_of n b')
stays b0 b' c s n q e = elim (Bool-cases (b0 == b')) [
  | inl r ↦
      let z : b' ≡ b0 = grind tests in
      let y : c ≡ s = grind tests in rw r (ap (child_of n) z ∙ e ∙ ap some y)
  | inr r ↦ rw r refl
]

-- What `set_inner_child` makes of the table.
pub updated :
    (n : Inner) (b0 c s : ℕ)
    → IsInner n
    → child_of n b0 ≡ some c
    → 1 ≤ s
    → (n' : Inner) × (((if s == c then ok n else inner_update_child n b0 s) ≡ ok n')
        × Puts n b0 s n')
updated n b0 c s i e l = elim (Bool-cases (s == c)) [
  | inl q ↦ (n, (rw q refl, (i, λ b'. stays b0 b' c s n q e)))
  | inr q ↦ let (n', (f, p)) = inner_update_child-Puts n b0 s c i e l in (n', (rw q f, p))
]
