-- ===== src/Concurrency/HybridLatch/Optimistic.antt =====
-- What an optimistic reader has read when its validation succeeds.
use mathlib.Core.Path.{subst}
use mathlib.Core.Option.{some-injective}
use artisan.Prelude.{
  Bool-cases, sym, ltb, ◌&&◌, ℕ, zero, suc, ◌+◌, ◌-◌, ◌%◌, ◌^◌, ◌≤◌, ◌<◌, ◌≡◌, ◌⊎◌, inl, inr, true,
  false, Option, none, some, List, [], ◌∷◌, arith, get_elem?, set, All, ◌==◌,
}
use artisan.Concurrency.Threads.{weight, count, count-set}
use artisan.Concurrency.HybridLatch.{
  writer, Latch, Pc, idle, loaded_version, optimistic, seen_counter, loaded_shared, shared,
  exclusive, bumped, Action, load_version, check_idle, read, validate_counter, validate_version,
  load_shared, cas_shared, release_shared, cas_exclusive, bump, clear, write, step, System, Step,
  move, Reach, here, next, fresh,
}
use artisan.Concurrency.HybridLatch.Bounds.{
  Fits, is_exclusive, IsSound, writers, IsIdle, start, Reach-IsSound, start-IsSound,
}

-- Every value that was read is `x`.
abbrev pub AllRead : ℕ → List ℕ → Type 0
AllRead x reads = All (λ y. y ≡ x) reads

-- What holds of an optimistic reader, by the number of writers inside: either an exclusive holder
-- has released since its load of the version, or one is inside, or it has read what is published.
abbrev pub Local : Latch → ℕ → Pc → Type 0
Local l m (loaded_version n v) = (n ≤ l.releases) × (v ≡ n % 2 ^ 64)
Local l m (optimistic n v reads) =
    (n ≤ l.releases) × (v ≡ n % 2 ^ 64) × ((n < l.releases) ⊎ ((1 ≤ m) ⊎ AllRead l.committed reads))
Local l m (seen_counter n v reads) =
    (n ≤ l.releases) × (v ≡ n % 2 ^ 64) × ((n < l.releases) ⊎ AllRead l.committed reads)
Local l m pc = (0 ≤ m) × Unit {0}

-- What holds of a thread after its own step, for the number of writers that there is then.
abbrev After : Pc → ℕ → Option (Latch × Pc) → Type 0
After pc m none = (m' : ℕ) → m ≡ m → (0 ≤ m) × Unit {0}
After pc m (some r) =
    (m' : ℕ) → m' + weight is_exclusive pc ≡ m + weight is_exclusive r.1 → Local r.0 m' r.1

read_more : (x y : ℕ) (reads : List ℕ) → y ≡ x → AllRead x reads → AllRead x (y ∷ reads)
read_more x y reads e h = (e, h)

-- An optimistic read, by whether a writer is inside.
read-After :
    (l : Latch) (n m k i v : ℕ) (reads : List ℕ)
    → Fits l n m k
    → Local l m (optimistic i v reads)
    → Local l m (optimistic i v (l.value ∷ reads))
read-After l n m k i v reads f (a, b, inl c) = (a, b, inl c)
read-After l n m k i v reads f (a, b, inr (inl c)) = (a, b, inr (inl c))
read-After l n m k i v reads f (a, b, inr (inr c)) = elim f.published [
  | inl w ↦ (a, b, inr (inl (omega arith)))
  | inr p ↦ (a, b, inr (inr (p, c)))
]

-- A counter that is not the writer's shows that no writer is inside.
seen-After :
    (l : Latch) (n m k i v : ℕ) (reads : List ℕ)
    → Fits l n m k
    → (l.counter == writer) ≡ false
    → Local l m (optimistic i v reads)
    → Local l m (seen_counter i v reads)
seen-After l n m k i v reads f t (a, b, inl c) = (a, b, inl c)
seen-After l n m k i v reads f t (a, b, inr (inl c)) = absurd (ground (arith, f.held))
seen-After l n m k i v reads f t (a, b, inr (inr c)) = (a, b, inr c)

weaken :
    (l : Latch) (m m' i v : ℕ) (reads : List ℕ)
    → m ≡ m'
    → Local l m (optimistic i v reads)
    → Local l m' (optimistic i v reads)
weaken l m m' i v reads e h = rw (← e) h

step-After :
    (a : Action) (pc : Pc) (l : Latch) (n m k : ℕ)
    → Fits l n m k
    → Local l m pc
    → After pc m (step a l pc)
unfolding step
step-After load_version idle l n m k f h = λ m' p. ground (arith, f)
step-After check_idle (loaded_version i v) l n m k f h = elim (Bool-cases (l.counter == writer)) [
  | inl t ↦ rw t (λ m' p. (omega arith, tt))
  | inr t ↦ rw t (λ m' p. (h.0, h.1, inr (inr tt)))
]
step-After read (optimistic i v reads) l n m k f h =
    λ m' p. weaken l m m' i v (l.value ∷ reads) (omega arith) (read-After l n m k i v reads f h)
step-After validate_counter (optimistic i v reads) l n m k f h =
    elim (Bool-cases (l.counter == writer)) [
      | inl t ↦ rw t (λ m' p. (omega arith, tt))
      | inr t ↦ rw t (λ m' p. seen-After l n m k i v reads f t h)
    ]
step-After validate_version (seen_counter i v reads) l n m k f h =
    elim (Bool-cases (l.version == v)) [
      | inl t ↦ rw t (λ m' p. (omega arith, tt))
      | inr t ↦ rw t (λ m' p. (omega arith, tt))
    ]
step-After cas_shared (loaded_shared cur) l n m k f h =
    elim (Bool-cases (ltb cur (writer - 1) && l.counter == cur)) [
      | inl t ↦ rw t (λ m' p. (omega arith, tt))
      | inr t ↦ rw t (λ m' p. (omega arith, tt))
    ]
step-After cas_exclusive idle l n m k f h = elim (Bool-cases (l.counter == 0)) [
  | inl t ↦ rw t (λ m' p. (omega arith, tt))
  | inr t ↦ rw t (λ m' p. (omega arith, tt))
]
step-After load_shared idle l n m k f h = λ m' p. (omega arith, tt)
step-After release_shared shared l n m k f h = λ m' p. (omega arith, tt)
step-After (write x) exclusive l n m k f h = λ m' p. (omega arith, tt)
step-After bump exclusive l n m k f h = λ m' p. (omega arith, tt)
step-After clear bumped l n m k f h = λ m' p. (omega arith, tt)
step-After _ _ l n m k f h = λ m' p. (omega arith, tt)

-- A step publishes something, or it leaves what is published and no fewer writers inside.
abbrev Moves : Latch → Latch → ℕ → ℕ → Type 0
Moves l l' m m' =
    (l.releases < l'.releases)
    ⊎ ((l'.releases ≡ l.releases) × (l'.committed ≡ l.committed) × (m ≤ m'))

step-Moves :
    (a : Action) (pc : Pc) (l : Latch) (r : Latch × Pc) (m m' : ℕ)
    → step a l pc ≡ some r
    → m' + weight is_exclusive pc ≡ m + weight is_exclusive r.1
    → Moves l r.0 m m'
unfolding step
step-Moves load_version idle l r m m' e p = ground arith
step-Moves _ _ l r m m' e p = ground arith

-- The threads that do not step.
Moves-Local : (pc : Pc) (l l' : Latch) (m m' : ℕ) → Moves l l' m m' → Local l m pc → Local l' m' pc
Moves-Local (loaded_version n v) l l' m m' mv h = ground arith
Moves-Local (optimistic n v reads) l l' m m' (inl g) h =
    (omega (arith, h.0), h.1, inl (omega (arith, h.0)))
Moves-Local (optimistic n v reads) l l' m m' (inr (a, b, c)) (d, e, inl f) =
    (omega arith, e, inl (omega arith))
Moves-Local (optimistic n v reads) l l' m m' (inr (a, b, c)) (d, e, inr (inl f)) =
    (omega arith, e, inr (inl (omega arith)))
Moves-Local (optimistic n v reads) l l' m m' (inr (a, b, c)) (d, e, inr (inr f)) =
    (omega arith, e, inr (inr (subst (λ x. AllRead x reads) (sym b) f)))
Moves-Local (seen_counter n v reads) l l' m m' (inl g) h =
    (omega (arith, h.0), h.1, inl (omega (arith, h.0)))
Moves-Local (seen_counter n v reads) l l' m m' (inr (a, b, c)) (d, e, inl f) =
    (omega arith, e, inl (omega arith))
Moves-Local (seen_counter n v reads) l l' m m' (inr (a, b, c)) (d, e, inr f) =
    (omega arith, e, inr (subst (λ x. AllRead x reads) (sym b) f))
Moves-Local pc l l' m m' mv h = (omega arith, tt)

abbrev AllLocal : Latch → ℕ → List Pc → Type 0
AllLocal l m ts = All (Local l m) ts

All-set :
    (l : Latch) (m : ℕ) (ts : List Pc) (i : ℕ) (pc : Pc)
    → Local l m pc
    → AllLocal l m ts
    → AllLocal l m (set ts i pc)
All-set l m [] i pc h k = tt
All-set l m (t ∷ ts) zero pc h k = (h, k.1)
All-set l m (t ∷ ts) (suc i) pc h k = (k.0, All-set l m ts i pc h k.1)

All-Moves :
    (l l' : Latch) (m m' : ℕ) (ts : List Pc) → Moves l l' m m' → AllLocal l m ts → AllLocal l' m' ts
All-Moves l l' m m' [] mv h = tt
All-Moves l l' m m' (t ∷ ts) mv h = (Moves-Local t l l' m m' mv h.0, All-Moves l l' m m' ts mv h.1)

All-get :
    (l : Latch) (m : ℕ) (ts : List Pc) (i : ℕ) (pc : Pc)
    → get_elem? ts i ≡ some pc
    → AllLocal l m ts
    → Local l m pc
All-get l m [] i pc e h = absurd (cc e)
All-get l m (t ∷ ts) zero pc e h = subst (Local l m) (some-injective t pc e) h.0
All-get l m (t ∷ ts) (suc i) pc e h = All-get l m ts i pc e h.1

Step-AllLocal :
    {s t : System}
    → Step s t
    → IsSound s
    → AllLocal s.latch (writers s) s.threads
    → AllLocal t.latch (writers t) t.threads
Step-AllLocal (move s i a pc r at e) inv h =
    let m' = count is_exclusive (set s.threads i r.1) in
    let counted = count-set is_exclusive s.threads i pc r.1 at in
    let mine =
      step-After a pc s.latch _ (writers s) _ inv
        (All-get s.latch (writers s) s.threads i pc at h) in
    All-set r.0 m' s.threads i r.1 ((subst (After pc (writers s)) e mine) m' counted) (
      All-Moves s.latch r.0 (writers s) m' s.threads
        (step-Moves a pc s.latch r (writers s) m' e counted) h)

Reach-AllLocal :
    {s t : System}
    → Reach s t
    → IsSound s
    → AllLocal s.latch (writers s) s.threads
    → AllLocal t.latch (writers t) t.threads
Reach-AllLocal here inv h = h
Reach-AllLocal (next r st) inv h = Step-AllLocal st (Reach-IsSound r inv) (Reach-AllLocal r inv h)

idle-AllLocal : (l : Latch) (m : ℕ) (ts : List Pc) → All IsIdle ts → AllLocal l m ts
idle-AllLocal l m [] h = tt
idle-AllLocal l m (t ∷ ts) h = (rw h.0 (omega arith, tt), idle-AllLocal l m ts h.1)

-- When the validation of an optimistic reader succeeds, in any interleaving on a new latch, every
-- value that it has read since its snapshot is the one that the last exclusive holder published: it
-- has seen no write that was in progress. Between its load of the version and the validation there
-- are fewer than 2^64 exclusive releases.
pub validate-committed :
    (value : ℕ) (ts : List Pc) {s : System} (i n v : ℕ) (reads : List ℕ)
    → All IsIdle ts
    → Reach (start value ts) s
    → get_elem? s.threads i ≡ some (seen_counter n v reads)
    → s.latch.releases < n + 2 ^ 64
    → (s.latch.version == v) ≡ true
    → AllRead s.latch.committed reads
validate-committed value ts {s} i n v reads h r at few same =
    let idle_start = start-IsSound value ts h in
    let inv = Reach-IsSound r idle_start in
    let l =
      All-get s.latch (writers s) s.threads i (seen_counter n v reads) at
        (Reach-AllLocal r idle_start (idle-AllLocal (fresh value) _ ts h)) in
    elim l.2 [ inl c ↦ absurd (ground (arith, inv.versioned, l.1, few, same, c)) | inr c ↦ c ]
