-- ===== src/Concurrency/Gate/Exclusion.antt =====
-- The gate admits a writer alone, and lets no reader in behind a writer that waits.
use artisan.Prelude.{
  ℕ, ◌+◌, ◌*◌, ◌^◌, ◌≤◌, ◌<◌, ◌≡◌, ◌≢◌, ◌⊎◌, refl, Bool, true, false, some, List, [], ◌∷◌, arith,
  get_elem?, All,
}
use artisan.Concurrency.Threads.{weight, count, count-set, count_pos, count_two}
use artisan.Concurrency.Gate.{
  Pc, outside, reading, draining, writing, Action, load_shared, step, Gate, Step, move, Reach, here,
  next,
}

abbrev pub is_reading : Pc → Bool
is_reading reading = true
is_reading pc = false

abbrev pub is_writing : Pc → Bool
is_writing writing = true
is_writing pc = false

-- Threads that have set the writer's bit and wait for the readers to leave.
abbrev pub is_draining : Pc → Bool
is_draining draining = true
is_draining pc = false

abbrev pub readers : Gate → ℕ
readers g = count is_reading g.threads

abbrev pub writers : Gate → ℕ
writers g = count is_writing g.threads

abbrev pub drainers : Gate → ℕ
drainers g = count is_draining g.threads

-- The word and the counts of readers, of writers inside and of writers that wait.
pub record Fits (word readers writers drainers : ℕ) : Type 0 where
  pub word_eq : word ≡ readers + 2 ^ 63 * (writers + drainers)
  pub one_holder : writers + drainers ≤ 1
  pub counted : readers < 2 ^ 63
  pub alone : (readers ≡ 0) ⊎ (writers ≡ 0)

abbrev pub IsSound : Gate → Type 0
IsSound g = Fits g.word (readers g) (writers g) (drainers g)

-- One operation, by the counts before and after it.
step-Fits :
    (a : Action) (pc : Pc) (word : ℕ) (r : ℕ × Pc) (n m k n' m' k' : ℕ)
    → step a word pc ≡ some r
    → Fits word n m k
    → n' + weight is_reading pc ≡ n + weight is_reading r.1
    → m' + weight is_writing pc ≡ m + weight is_writing r.1
    → k' + weight is_draining pc ≡ k + weight is_draining r.1
    → weight is_reading pc ≤ n
    → weight is_writing pc ≤ m
    → weight is_draining pc ≤ k
    → Fits r.0 n' m' k'
unfolding step
step-Fits load_shared outside word r n m k n' m' k' e f p q s t u v = ground arith
step-Fits _ _ word r n m k n' m' k' e f p q s t u v = ground arith

Step-IsSound : {g h : Gate} → Step g h → IsSound g → IsSound h
Step-IsSound (move g i a pc r at e) s =
    step-Fits a pc g.word r (readers g) (writers g) (drainers g) _ _ _ e s
      (count-set is_reading g.threads i pc r.1 at) (count-set is_writing g.threads i pc r.1 at)
      (count-set is_draining g.threads i pc r.1 at) (count_pos is_reading g.threads i pc at)
      (count_pos is_writing g.threads i pc at) (count_pos is_draining g.threads i pc at)

pub Reach-IsSound : {g h : Gate} → Reach g h → IsSound g → IsSound h
Reach-IsSound here s = s
Reach-IsSound (next r st) s = Step-IsSound st (Reach-IsSound r s)

-- A gate that nobody has entered.
abbrev pub fresh : List Pc → Gate
fresh threads = record { word = 0; threads = threads }

abbrev pub IsOutside : Pc → Type 0
IsOutside pc = pc ≡ outside

outside-count :
    (p : Pc → Bool) → p outside ≡ false → (ts : List Pc) → All IsOutside ts → count p ts ≡ 0
outside-count p e [] h = refl
outside-count p e (t ∷ ts) h = ground (arith, outside-count p e ts h.1, e, h.0)

fresh-IsSound : (ts : List Pc) → All IsOutside ts → IsSound (fresh ts)
fresh-IsSound ts h = ground (
  arith,
  outside-count is_reading refl ts h,
  outside-count is_writing refl ts h,
  outside-count is_draining refl ts h,
)

-- In every interleaving of threads that start outside a new gate, while one thread is inside
-- exclusively no other is inside, neither exclusively nor as a reader.
pub enter_exclusive-alone :
    (ts : List Pc) {g : Gate} (i j : ℕ) (pc : Pc)
    → All IsOutside ts
    → Reach (fresh ts) g
    → i ≢ j
    → get_elem? g.threads i ≡ some writing
    → get_elem? g.threads j ≡ some pc
    → (pc ≢ writing) × (pc ≢ reading)
enter_exclusive-alone ts {g} i j pc h r ne at_i at_j =
    let s = Reach-IsSound r (fresh-IsSound ts h) in
    (
      λ e. ground (arith, s, count_two is_writing g.threads i j writing pc ne at_i at_j),
      λ e. ground (
        arith,
        s,
        count_pos is_writing g.threads i writing at_i,
        count_pos is_reading g.threads j pc at_j,
      ),
    )

step-blocks :
    (a : Action) (pc : Pc) (word : ℕ) (r : ℕ × Pc) (n n' held : ℕ)
    → step a word pc ≡ some r
    → word ≡ n + 2 ^ 63 * held
    → 1 ≤ held
    → n' + weight is_reading pc ≡ n + weight is_reading r.1
    → n' ≤ n
unfolding step
step-blocks load_shared outside word r n n' held e w h p = ground arith
step-blocks _ _ word r n n' held e w h p = ground arith

blocked : {g h : Gate} → Step g h → IsSound g → 1 ≤ writers g + drainers g → readers h ≤ readers g
blocked (move g i a pc r at e) s held =
    step-blocks a pc g.word r (readers g) _ (writers g + drainers g) e s.word_eq held
      (count-set is_reading g.threads i pc r.1 at)

-- A thread that waits to enter exclusively, or is inside, keeps new readers out: no step of any
-- thread makes the readers more.
pub pending_exclusive-blocks_shared :
    (ts : List Pc) {g h : Gate} (i : ℕ) (pc : Pc)
    → All IsOutside ts
    → Reach (fresh ts) g
    → get_elem? g.threads i ≡ some pc
    → (pc ≡ draining) ⊎ (pc ≡ writing)
    → Step g h
    → readers h ≤ readers g
pending_exclusive-blocks_shared ts {g} i pc out r at held st =
    blocked st (Reach-IsSound r (fresh-IsSound ts out)) (
      ground
        (arith, count_pos is_draining g.threads i pc at, count_pos is_writing g.threads i pc at))
