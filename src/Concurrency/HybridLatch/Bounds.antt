-- ===== src/Concurrency/HybridLatch/Bounds.antt =====
-- The counter of the latch counts its holders: one writer, or any number of readers.
use artisan.Prelude.{
  ℕ, ◌+◌, ◌%◌, ◌^◌, ◌≤◌, ◌<◌, ◌≡◌, ◌≢◌, ◌⊎◌, refl, Bool, true, false, some, List, [], ◌∷◌, arith,
  get_elem?, All,
}
use artisan.Concurrency.Threads.{weight, count, count-set, count_pos, count_two}
use artisan.Concurrency.HybridLatch.{
  writer, Latch, Pc, idle, shared, exclusive, bumped, Action, load_version, step, System, Step,
  move, Reach, here, next, fresh,
}

abbrev pub is_shared : Pc → Bool
is_shared shared = true
is_shared pc = false

abbrev pub is_exclusive : Pc → Bool
is_exclusive exclusive = true
is_exclusive pc = false

abbrev pub is_bumped : Pc → Bool
is_bumped bumped = true
is_bumped pc = false

-- The latch and the counts of readers, of writers, and of writers that have bumped the version.
pub record Fits (l : Latch) (readers writers leaving : ℕ) : Type 0 where
  pub held :
      ((l.counter ≡ readers) × (readers < writer) × (writers + leaving ≡ 0))
      ⊎ ((l.counter ≡ writer) × (readers ≡ 0) × (writers + leaving ≡ 1))
  pub versioned : l.version ≡ l.releases % 2 ^ 64
  pub published : (writers ≡ 1) ⊎ (l.value ≡ l.committed)

step-Fits :
    (a : Action) (pc : Pc) (l : Latch) (r : Latch × Pc) (n m k n' m' k' : ℕ)
    → step a l pc ≡ some r
    → Fits l n m k
    → n' + weight is_shared pc ≡ n + weight is_shared r.1
    → m' + weight is_exclusive pc ≡ m + weight is_exclusive r.1
    → k' + weight is_bumped pc ≡ k + weight is_bumped r.1
    → weight is_shared pc ≤ n
    → weight is_exclusive pc ≤ m
    → weight is_bumped pc ≤ k
    → Fits r.0 n' m' k'
unfolding step
step-Fits load_version idle l r n m k n' m' k' e f p q s t u v = ground arith
step-Fits _ _ l r n m k n' m' k' e f p q s t u v = ground arith

abbrev pub readers : System → ℕ
readers s = count is_shared s.threads

abbrev pub writers : System → ℕ
writers s = count is_exclusive s.threads

abbrev pub leaving : System → ℕ
leaving s = count is_bumped s.threads

abbrev pub IsSound : System → Type 0
IsSound s = Fits s.latch (readers s) (writers s) (leaving s)

pub Step-IsSound : {s t : System} → Step s t → IsSound s → IsSound t
Step-IsSound (move s i a pc r at e) h =
    step-Fits a pc s.latch r (readers s) (writers s) (leaving s) _ _ _ e h
      (count-set is_shared s.threads i pc r.1 at) (count-set is_exclusive s.threads i pc r.1 at)
      (count-set is_bumped s.threads i pc r.1 at) (count_pos is_shared s.threads i pc at)
      (count_pos is_exclusive s.threads i pc at) (count_pos is_bumped s.threads i pc at)

pub Reach-IsSound : {s t : System} → Reach s t → IsSound s → IsSound t
Reach-IsSound here h = h
Reach-IsSound (next r st) h = Step-IsSound st (Reach-IsSound r h)

abbrev pub IsIdle : Pc → Type 0
IsIdle pc = pc ≡ idle

abbrev pub start : ℕ → List Pc → System
start value threads = record { latch = fresh value; threads = threads }

idle-count : (p : Pc → Bool) → p idle ≡ false → (ts : List Pc) → All IsIdle ts → count p ts ≡ 0
idle-count p e [] h = refl
idle-count p e (t ∷ ts) h = ground (arith, idle-count p e ts h.1, e, h.0)

pub start-IsSound : (value : ℕ) (ts : List Pc) → All IsIdle ts → IsSound (start value ts)
start-IsSound value ts h = ground (
  arith,
  idle-count is_shared refl ts h,
  idle-count is_exclusive refl ts h,
  idle-count is_bumped refl ts h,
)

-- In every interleaving of threads that start idle on a new latch, while one thread holds it
-- exclusively no other thread holds it, neither exclusively nor shared, and no other is on its way
-- out of an exclusive hold.
pub acquire_exclusive-alone :
    (value : ℕ) (ts : List Pc) {s : System} (i j : ℕ) (pc : Pc)
    → All IsIdle ts
    → Reach (start value ts) s
    → i ≢ j
    → get_elem? s.threads i ≡ some exclusive
    → get_elem? s.threads j ≡ some pc
    → (pc ≢ exclusive) × (pc ≢ shared) × (pc ≢ bumped)
acquire_exclusive-alone value ts {s} i j pc h r ne at_i at_j =
    let inv = Reach-IsSound r (start-IsSound value ts h) in
    let one = count_pos is_exclusive s.threads i exclusive at_i in
    (
      λ e. ground (arith, inv, count_two is_exclusive s.threads i j exclusive pc ne at_i at_j),
      λ e. ground (arith, inv, one, count_pos is_shared s.threads j pc at_j),
      λ e. ground (arith, inv, one, count_pos is_bumped s.threads j pc at_j),
    )
