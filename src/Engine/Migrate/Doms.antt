-- ===== src/Engine/Migrate/Doms.antt =====
-- The bytes at which an inner node has a child.
use artisan.Prelude.{
  ℕ, ◌≡◌, refl, ◌∙◌, Bool, true, not, none, some, List, [], ◌∷◌, ◌==◌, if◌then◌else◌, arith, inl,
  inr, Bool-cases,
}
use artisan.Engine.Inner.{Cell, Inner, cells4, cells16, find_byte}
use artisan.Engine.Inner.Finds.{child_of}
use artisan.Engine.Migrate.Survivors.{in_span, in_span_sound, in_span-there}
use artisan.Engine.Migrate.Copied.{has_cell}
use artisan.Engine.Migrate.Copies.{IsDom}

pub has_cell-find :
    (cells : List Cell) (b : ℕ) → has_cell cells b ≡ true → (c : ℕ) × (find_byte b cells ≡ some c)
has_cell-find [] b h = absurd (cc h)
has_cell-find ((k, c) ∷ cells) b h = elim (Bool-cases (k == b)) [
  | inl e ↦ (c, rw e refl)
  | inr e ↦ let (d, f) = has_cell-find cells b (rw e at h) in (d, rw e f)
]

pub find-has_cell :
    (cells : List Cell) (b c : ℕ) → find_byte b cells ≡ some c → has_cell cells b ≡ true
find-has_cell [] b c h = absurd (cc h)
find-has_cell ((k, x) ∷ cells) b c h = ground (arith, find-has_cell cells b c, h)

pub span_IsDom :
    (n : Inner) (there : ℕ → Bool)
    → ((b : ℕ) → there b ≡ true → (c : ℕ) × (child_of n b ≡ some c))
    → ((b c : ℕ) → child_of n b ≡ some c → there b ≡ true)
    → IsDom n (in_span there 256 0)
span_IsDom n there h i = record {
  sound = λ b e. h b (in_span_sound there 256 0 b e);
  total = λ b c l e. in_span-there there 256 0 b (omega arith) (omega (arith, l)) ∙ i b c e;
}

pub IsDom-4 : (cells : List Cell) → IsDom (cells4 cells) (has_cell cells)
IsDom-4 cells = record { sound = has_cell-find cells; total = λ b c l. find-has_cell cells b c }

pub IsDom-16 : (cells : List Cell) → IsDom (cells16 cells) (has_cell cells)
IsDom-16 cells = record { sound = has_cell-find cells; total = λ b c l. find-has_cell cells b c }

pub some_child :
    (x y : ℕ) → not (x == 0) ≡ true → (c : ℕ) × ((if x == 0 then none else some y) ≡ some c)
some_child x y h = (y, ground (arith, h))

pub child_there : (x y c : ℕ) → (if x == 0 then none else some y) ≡ some c → not (x == 0) ≡ true
child_there x y c h = ground (arith, h)
