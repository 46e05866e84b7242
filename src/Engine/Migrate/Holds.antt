-- ===== src/Engine/Migrate/Holds.antt =====
-- A node of just the copies.
use artisan.Prelude.{
  ℕ, ◌+◌, ◌≤◌, ◌<◌, ◌≡◌, refl, ap, ◌∙◌, Option, none, some, List, [], ◌∷◌, ◌++◌, ◌==◌, get_elem?,
  arith, inl, inr, Bool-cases,
}
use artisan.Engine.Inner.{Inner, find_byte}
use artisan.Engine.Inner.Finds.{Ascending, IsInner, child_of}
use artisan.Engine.Tree.{Node, inner, slot_of, LookupResult, not_found}
use artisan.Engine.Tree.Finds.{IsTree, look, pick, follow}
use artisan.Engine.Tree.Keyed.{Pos, Keyed}
use artisan.Engine.Migrate.{Survivors, slots, at, node_at}
use artisan.Engine.Migrate.Copied.{Live}

abbrev pub look_at : Option Node → List ℕ → ℕ → LookupResult
look_at none w d = not_found
look_at (some n) w d = look n w d

abbrev pub HaveTrees : Survivors → Type 0
HaveTrees ss = (b : ℕ) (n : Node) → at ss b ≡ some n → IsTree n

abbrev pub AreTrees : Survivors → Type 0
AreTrees ss = Ascending (slots ss) × HaveTrees ss

-- A node of just these children.
pub record IsPack (ss : Survivors) (n : Node) : Type 0 where
  pub tree : IsTree n
  pub looks :
      (w : List ℕ) (d : ℕ) → look n w d ≡ pick (get_elem? w d) (λ b. look_at (at ss b) w (d + 1))
  pub keyed :
      (path : List ℕ)
      → Pos path
      → ((b : ℕ) (m : Node) → at ss b ≡ some m → Keyed (path ++ (b ∷ [])) m)
      → Keyed path n
  pub live : ((b : ℕ) (m : Node) → at ss b ≡ some m → Live m) → Live n

-- A byte has a copy, or has none.
data At (ss : Survivors) (b : ℕ) : Type 0 where
  without : at ss b ≡ none → find_byte b (slots ss) ≡ none → At ss b
  with_node :
      (m : Node)
      → at ss b ≡ some m
      → find_byte b (slots ss) ≡ some (slot_of m)
      → node_at ss b ≡ m
      → At ss b

At-cases : (ss : Survivors) (b : ℕ) → At ss b
At-cases [] b = without refl refl
At-cases ((k, n) ∷ ss) b = elim (Bool-cases (k == b)) [
  | inl e ↦ with_node n (rw e refl) (rw e refl) (rw e refl)
  | inr e ↦ elim (At-cases ss b) [
    | without p q ↦ without (rw e p) (rw e q)
    | with_node m p q r ↦ with_node m (rw e p) (rw e q) (rw e r)
  ]
]

pub find-at :
    (ss : Survivors) (b : ℕ) (m : Node)
    → at ss b ≡ some m
    → find_byte b (slots ss) ≡ some (slot_of m)
find-at ss b m h = elim (At-cases ss b) [
  | without f g ↦ absurd (ground (arith, h, f))
  | with_node m' f g r ↦ let z : m' ≡ m = ground (arith, h, f) in g ∙ ap (λ x. some (slot_of x)) z
]

pub find-at_none : (ss : Survivors) (b : ℕ) → at ss b ≡ none → find_byte b (slots ss) ≡ none
find-at_none ss b h = elim (At-cases ss b) [
  | without f g ↦ g
  | with_node m f g r ↦ absurd (ground (arith, h, f))
]

module _ (ss : Survivors) (slot : ℕ) (n : Inner) (p : 1 ≤ slot) (t : HaveTrees ss) (i : IsInner n)
    (e : (b : ℕ) → child_of n b ≡ find_byte b (slots ss)) where
  there :
      (b c : ℕ)
      → child_of n b ≡ some c
      → (m : Node) × ((at ss b ≡ some m) × ((slot_of m ≡ c) × (node_at ss b ≡ m)))
  there b c h = elim (At-cases ss b) [
    | without f g ↦ absurd (ground (arith, h, e b, g))
    | with_node m f g r ↦ (m, (f, (ground (arith, h, e b, g), r)))
  ]

  child-IsTree :
      (b c : ℕ) → child_of n b ≡ some c → (slot_of (node_at ss b) ≡ c) × IsTree (node_at ss b)
  child-IsTree b c h = let (m, (f, (g, r))) = there b c h in rw r (g, t b m f)

  child_look :
      (w : List ℕ) (d b : ℕ)
      → follow (child_of n b) (look (node_at ss b) w d) ≡ look_at (at ss b) w d
  child_look w d b = elim (At-cases ss b) [
    | without f g ↦ rw (e b, f, g) refl
    | with_node m f g r ↦ rw (e b, f, g, r) refl
  ]

  at_child :
      (b : ℕ) (m : Node) → at ss b ≡ some m → (child_of n b ≡ some (slot_of m)) × (node_at ss b ≡ m)
  at_child b m h = elim (At-cases ss b) [
    | without f g ↦ absurd (ground (arith, h, f))
    | with_node m' f g r ↦
        let z : m' ≡ m = ground (arith, h, f) in (e b ∙ g ∙ ap (λ x. some (slot_of x)) z, r ∙ z)
  ]

  pub inner-IsPack : IsPack ss (inner slot n (node_at ss))
  inner-IsPack = record {
    tree = (p, (i, child-IsTree));
    looks = λ w d i. pick (get_elem? w d) (λ b. child_look w (d + 1) b i);
    keyed = λ path q h. (q, λ b c j. let (m, (f, (g, r))) = there b c j in rw r (h b m f));
    live = λ h b c l j. let (m, (f, (g, r))) = there b c j in rw r (h b m f);
  }

  pub inner_buried :
      Live (inner slot n (node_at ss)) → (b : ℕ) (m : Node) → b < 256 → at ss b ≡ some m → Live m
  inner_buried h b m l j = let (f, r) = at_child b m j in let v = h b (slot_of m) l f in rw r at v
