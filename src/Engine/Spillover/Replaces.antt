-- ===== src/Engine/Spillover/Replaces.antt =====
-- A node in the place of one that finds the same.
use artisan.Prelude.{ℕ, ◌≡◌, refl, ◌∙◌, some, List, [], ◌∷◌}
use artisan.Errors.{Outcome, ok}
use artisan.Engine.Inner.{Inner, put_at}
use artisan.Engine.Inner.Finds.{child_of}
use artisan.Engine.Inner.Adds.{Puts}
use artisan.Engine.Inner.Updates.{inner_update_child-Puts}
use artisan.Engine.Tree.{Node, prefix, inner, slot_of}
use artisan.Engine.Tree.Finds.{IsTree, slot_of-IsTree}
use artisan.Engine.Migrate.Images.{Image}
use artisan.Engine.Merge.Kept.{IsSame, same_child, put-IsKept, start-IsKept, inner-IsSame}
use artisan.Engine.Merge.Passes.{prefix-IsSame}
use artisan.Engine.Spillover.{replace_at}
use artisan.Engine.Spillover.Victims.{Edge}
use artisan.Engine.Spillover.Picks.{Leads, here, prefixed, keyed}

-- A node other than the root is replaced below the root's slot.
abbrev pub SameSlot : List Edge → Node → Node → Type 0
SameSlot [] t n = Unit {0}
SameSlot (e ∷ es) t n = slot_of n ≡ slot_of t

abbrev pub Replaced : (ℕ → Outcome Image) → List Edge → Node → Node → Type 0
Replaced pin es t new =
    (t' : Node) × ((replace_at es t new ≡ ok t') × (IsSame pin t t' × SameSlot es t t'))

Leads-nil : (s : Node) (es : List Edge) (t : Node) → Leads s es t → es ≡ [] → s ≡ t
Leads-nil s es t here e = refl
Leads-nil s es t (prefixed es' slot bytes child l) e = absurd (cc e)
Leads-nil s es t (keyed es' slot n children b c f l) e = absurd (cc e)

ap_same : (pin : ℕ → Outcome Image) (s t new : Node) → s ≡ t → IsSame pin s new → IsSame pin t new
ap_same pin s t new e h = rw e at h

module _ (pin : ℕ → Outcome Image) (s new : Node) (same : IsSame pin s new) where
  put_same :
      (slot : ℕ) (n n' : Inner) (children : ℕ → Node) (b c : ℕ) (x : Node)
      → IsTree (inner slot n children)
      → child_of n b ≡ some c
      → IsSame pin (children b) x
      → Puts n b (slot_of x) n'
      → IsSame pin (inner slot n children) (inner slot n' (put_at children b x))
  put_same slot n n' children b c x i e y p =
      inner-IsSame pin slot n n' children (put_at children b x) i
        (put-IsKept pin n children n n' children b c x (start-IsKept pin slot n children i) e y p)

  pub replace_at-Replaced :
      (es : List Edge) (t : Node) → Leads s es t → IsTree t → Replaced pin es t new
  unfolding replace_at
  replace_at-Replaced es t here i = (new, (refl, (same, tt)))
  replace_at-Replaced es t (prefixed es' slot bytes child l) (p, (q, i)) =
      let (c, (e, (y, z))) = replace_at-Replaced es' child l i in
      (prefix slot bytes c, (rw e refl, (prefix-IsSame pin slot bytes child c p q y, refl)))
  replace_at-Replaced es t (keyed [] slot n children b c f l) i =
      let y : IsSame pin (children b) new =
        ap_same pin s (children b) new (Leads-nil s [] (children b) l refl) same in
      let (n', (g, p)) =
        inner_update_child-Puts n b (slot_of new) c i.1.0 f (slot_of-IsTree new same.tree) in
      (
        inner slot n' (put_at children b new),
        (rw g refl, (put_same slot n n' children b c new i f y p, refl)),
      )
  replace_at-Replaced es t (keyed (e ∷ es') slot n children b c f l) i =
      let (x, (g, (y, z))) = replace_at-Replaced (e ∷ es') (children b) l (i.1.1 b c f).1 in
      let q : slot_of x ≡ c = z ∙ (i.1.1 b c f).0 in
      let p : Puts n b (slot_of x) n = (i.1.0, λ b'. same_child n b b' c (slot_of x) f q) in
      (
        inner slot n (put_at children b x),
        (rw g refl, (put_same slot n n children b c x i f y p, refl)),
      )
