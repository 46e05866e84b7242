-- ===== src/Concurrency/Threads.antt =====
-- Threads as a list of their program counters. An interleaving moves one of them at a time.
use artisan.Prelude.{
  ℕ, zero, suc, ◌+◌, ◌≤◌, ◌≡◌, ◌≢◌, refl, ap, Bool, some, List, [], ◌∷◌, arith, if◌then◌else◌,
  get_elem?, set,
}

module _ {Pc : Type 0} (p : Pc → Bool) where
  abbrev pub weight : Pc → ℕ
  weight pc = if p pc then 1 else 0

  -- How many threads stand at such a counter.
  abbrev pub count : List Pc → ℕ
  count [] = 0
  count (t ∷ ts) = weight t + count ts

  pub count-set :
      (ts : List Pc) (i : ℕ) (old new : Pc)
      → get_elem? ts i ≡ some old
      → count (set ts i new) + weight old ≡ count ts + weight new
  count-set [] i old new h = absurd (cc h)
  count-set (t ∷ ts) zero old new h = ground arith
  count-set (t ∷ ts) (suc i) old new h = omega (arith, count-set ts i old new h)

  pub count_pos : (ts : List Pc) (i : ℕ) (t : Pc) → get_elem? ts i ≡ some t → weight t ≤ count ts
  count_pos [] i t h = absurd (cc h)
  count_pos (u ∷ ts) zero t h = ground arith
  count_pos (u ∷ ts) (suc i) t h = omega (arith, count_pos ts i t h)

  -- Two threads count twice.
  pub count_two :
      (ts : List Pc) (i j : ℕ) (t u : Pc)
      → i ≢ j
      → get_elem? ts i ≡ some t
      → get_elem? ts j ≡ some u
      → weight t + weight u ≤ count ts
  count_two [] i j t u ne h k = absurd (cc h)
  count_two (v ∷ ts) zero zero t u ne h k = absurd (ne refl)
  count_two (v ∷ ts) zero (suc j) t u ne h k = ground (arith, count_pos ts j u k)
  count_two (v ∷ ts) (suc i) zero t u ne h k = ground (arith, count_pos ts i t h)
  count_two (v ∷ ts) (suc i) (suc j) t u ne h k =
      omega (arith, count_two ts i j t u (λ e. ne (ap suc e)) h k)
