-- ===== src/Engine/Erase/Kept.antt =====
-- A parent whose child is changed in its place.
use artisan.Prelude.{
  ℕ, ◌+◌, ◌≡◌, refl, sym, ap, ◌∙◌, Bool, true, ◌&&◌, Option, none, some, List, [], ◌∷◌, ◌==◌, tests,
  if◌then◌else◌, arith, Bool-cases, Option-cases, inl, inr, ◌++◌,
}
use artisan.Engine.Key.Terminated.{same}
use artisan.Engine.Inner.{Inner, put_at}
use artisan.Engine.Inner.Finds.{child_of}
use artisan.Engine.Tree.{Node, slot_of, not_found}
use artisan.Engine.Tree.Finds.{IsTree, pick, follow, look}
use artisan.Engine.Tree.Keyed.{Keyed}

pub inner_look :
    (w0 : List ℕ) (m : Bool) (n : Inner) (children : ℕ → Node) (x : Node) (b0 d : ℕ) (w : List ℕ)
    (o : Option ℕ)
    → (same w w0 ≡ true → o ≡ some b0)
    → look x w (d + 1) ≡ (if m && same w w0 then not_found else look (children b0) w (d + 1))
    → pick o (λ b. follow (child_of n b) (look (put_at children b0 x b) w (d + 1))) ≡ (
        if m && same w w0
        then not_found
        else pick o (λ b. follow (child_of n b) (look (children b) w (d + 1))))
inner_look w0 m n children x b0 d w none h e = ground arith
inner_look w0 m n children x b0 d w (some b) h e = elim (Bool-cases (b == b0)) [
  | inl q ↦
      let z : b ≡ b0 = grind tests in
      let q0 : (b0 == b0) ≡ true = ground arith in
      rw (z, q0, e)
        (elim (Option-cases (child_of n b0)) [
          | inl f ↦ rw f (ground arith)
          | inr (c, f) ↦ rw f refl
        ])
  | inr q ↦ elim (Bool-cases (same w w0)) [
    | inl s ↦ absurd (ground (arith, q, h s))
    | inr s ↦ rw (q, s) (ground arith)
  ]
]

pub kept_children :
    (n : Inner) (children : ℕ → Node) (x : Node) (b0 : ℕ)
    → IsTree x
    → slot_of x ≡ slot_of (children b0)
    → ((b c : ℕ) → child_of n b ≡ some c → (slot_of (children b) ≡ c) × IsTree (children b))
    → (b c : ℕ) → child_of n b ≡ some c
    → (slot_of (put_at children b0 x b) ≡ c) × IsTree (put_at children b0 x b)
kept_children n children x b0 t v h b c e = elim (Bool-cases (b == b0)) [
  | inl q ↦
      let z : b0 ≡ b = grind tests in rw q (v ∙ ap (λ y. slot_of (children y)) z ∙ (h b c e).0, t)
  | inr q ↦ rw q (h b c e)
]

pub kept_Keyed :
    (path : List ℕ) (n : Inner) (children : ℕ → Node) (x : Node) (b0 : ℕ)
    → ((b c : ℕ) → child_of n b ≡ some c → Keyed (path ++ (b ∷ [])) (children b))
    → (Keyed (path ++ (b0 ∷ [])) (children b0) → Keyed (path ++ (b0 ∷ [])) x)
    → (b c : ℕ) → child_of n b ≡ some c
    → Keyed (path ++ (b ∷ [])) (put_at children b0 x b)
kept_Keyed path n children x b0 h f b c e = elim (Bool-cases (b == b0)) [
  | inl q ↦
      let z : b ≡ b0 = grind tests in
      let q0 : (b0 == b0) ≡ true = ground arith in
      let e' : child_of n b0 ≡ some c = rw (sym z) e in rw (z, q0) (f (h b0 c e'))
  | inr q ↦ rw q (h b c e)
]
