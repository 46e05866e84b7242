-- ===== src/Concurrency/EndpointLocks/Order.antt =====
-- The flags of the shards count their holders, and two shards are taken in order.
use mathlib.Core.Path.{subst}
use mathlib.Core.Option.{some-injective}
use artisan.Prelude.{
  ℕ, zero, suc, ◌+◌, ◌≤◌, ◌<◌, ◌≡◌, ◌≢◌, refl, sym, Bool, true, false, ◌||◌, none, some, List, [],
  ◌∷◌, arith, ◌==◌, if◌then◌else◌, get_elem?, set, All,
}
use artisan.Concurrency.Threads.{weight, count, count-set, count_pos, count_two}
use artisan.Concurrency.EndpointLocks.{
  Pc, outside, wants, wants_second, holds, releasing, lock_order, shard_index, Action, lock_key,
  lock_pair, acquire, release, step, EndpointLocks, Step, move, Reach, here, next,
}

-- The thread has locked the shard.
abbrev pub held : ℕ → Pc → Bool
held x (wants_second i j) = i == x
held x (holds i none) = i == x
held x (holds i (some j)) = (i == x) || (j == x)
held x (releasing j) = j == x
held x pc = false

-- The shards of a thread exist, and the second of two is the greater.
abbrev pub IsOrdered : Pc → Type 0
IsOrdered outside = Unit {0}
IsOrdered (wants i none) = i < 256
IsOrdered (wants i (some j)) = (i < j) × (j < 256)
IsOrdered (wants_second i j) = (i < j) × (j < 256)
IsOrdered (holds i none) = i < 256
IsOrdered (holds i (some j)) = (i < j) × (j < 256)
IsOrdered (releasing j) = j < 256

abbrev pub flag : Bool → ℕ
flag b = if b then 1 else 0

-- A shard is locked by as many threads as its flag says.
pub record IsSound (s : EndpointLocks) : Type 0 where
  pub owned : (x : ℕ) → count (held x) s.threads ≡ flag (s.locked x)
  pub ordered : All IsOrdered s.threads

shard_index_lt : (key : List ℕ) → shard_index key < 256
unfolding shard_index
shard_index_lt key = omega arith

lock_order-IsOrdered : (i j : ℕ) → i < 256 → j < 256 → IsOrdered (lock_order i j)
unfolding lock_order
lock_order-IsOrdered i j h k = ground arith

lock_order-held : (i j x : ℕ) → weight (held x) (lock_order i j) ≡ 0
unfolding lock_order
lock_order-held i j x = ground arith

step-IsOrdered :
    (a : Action) (locked : ℕ → Bool) (pc : Pc) (r : (ℕ → Bool) × Pc)
    → step a locked pc ≡ some r
    → IsOrdered pc
    → IsOrdered r.1
unfolding step
step-IsOrdered (lock_key key) locked outside r e h = ground (arith, shard_index_lt key)
step-IsOrdered (lock_pair src dst) locked outside r e h = ground (
  arith,
  lock_order-IsOrdered (shard_index src) (shard_index dst) (shard_index_lt src)
      (shard_index_lt dst),
)
step-IsOrdered acquire locked (wants i none) r e h = ground arith
step-IsOrdered acquire locked (wants i (some j)) r e h = ground arith
step-IsOrdered _ locked _ r e h = ground arith

step-held :
    (a : Action) (locked : ℕ → Bool) (pc : Pc) (r : (ℕ → Bool) × Pc) (x : ℕ)
    → step a locked pc ≡ some r
    → IsOrdered pc
    → weight (held x) pc ≤ flag (locked x)
    → weight (held x) r.1 + flag (locked x) ≡ weight (held x) pc + flag (r.0 x)
unfolding step
step-held (lock_key key) locked outside r x e h k = ground arith
step-held (lock_pair src dst) locked outside r x e h k =
    ground (arith, lock_order-held (shard_index src) (shard_index dst) x)
step-held acquire locked (wants i none) r x e h k = ground arith
step-held acquire locked (wants i (some j)) r x e h k = ground arith
step-held release locked (holds i none) r x e h k = ground arith
step-held release locked (holds i (some j)) r x e h k = ground arith
step-held _ locked _ r x e h k = ground arith

pub All-get :
    (ts : List Pc) (i : ℕ) (pc : Pc) → All IsOrdered ts → get_elem? ts i ≡ some pc → IsOrdered pc
All-get [] i pc h e = absurd (cc e)
All-get (t ∷ ts) zero pc h e = subst IsOrdered (some-injective t pc e) h.0
All-get (t ∷ ts) (suc i) pc h e = All-get ts i pc h.1 e

All-set :
    (ts : List Pc) (i : ℕ) (pc : Pc) → All IsOrdered ts → IsOrdered pc → All IsOrdered (set ts i pc)
All-set [] i pc h k = tt
All-set (t ∷ ts) zero pc h k = (k, h.1)
All-set (t ∷ ts) (suc i) pc h k = (h.0, All-set ts i pc h.1 k)

Step-IsSound : {s t : EndpointLocks} → Step s t → IsSound s → IsSound t
Step-IsSound (move s i a pc r at e) h =
    let o : IsOrdered pc = All-get s.threads i pc h.ordered at in
    record {
      owned = λ x.
          let k : weight (held x) pc ≤ flag (s.locked x) =
            omega (arith, h.owned x, count_pos (held x) s.threads i pc at) in
          omega (
            arith,
            h.owned x,
            count-set (held x) s.threads i pc r.1 at,
            step-held a s.locked pc r x e o k,
          );
      ordered = All-set s.threads i r.1 h.ordered (step-IsOrdered a s.locked pc r e o);
    }

pub Reach-IsSound : {s t : EndpointLocks} → Reach s t → IsSound s → IsSound t
Reach-IsSound here h = h
Reach-IsSound (next r st) h = Step-IsSound st (Reach-IsSound r h)

abbrev pub IsOutside : Pc → Type 0
IsOutside pc = pc ≡ outside

-- Locks that nobody has taken.
abbrev pub fresh : List Pc → EndpointLocks
fresh threads = record { locked = λ i. false; threads = threads }

pub outside-IsSound : (ts : List Pc) → All IsOutside ts → IsSound (fresh ts)
outside-IsSound ts h = record { owned = none_held ts h; ordered = all_ordered ts h }
  where
    none_held : (ts : List Pc) → All IsOutside ts → (x : ℕ) → count (held x) ts ≡ 0
    none_held [] h x = refl
    none_held (t ∷ ts) h x = rw (h.0) (omega (arith, none_held ts h.1 x))

    all_ordered : (ts : List Pc) → All IsOutside ts → All IsOrdered ts
    all_ordered [] h = tt
    all_ordered (t ∷ ts) h = (subst IsOrdered (sym h.0) tt, all_ordered ts h.1)

-- In every interleaving of threads that start outside, two threads never hold one shard.
pub lock_pair-exclusive :
    (ts : List Pc) {s : EndpointLocks} (i j x : ℕ) (p q : Pc)
    → All IsOutside ts
    → Reach (fresh ts) s
    → i ≢ j
    → get_elem? s.threads i ≡ some p
    → get_elem? s.threads j ≡ some q
    → held x p ≡ true
    → held x q ≡ false
lock_pair-exclusive ts {s} i j x p q h r ne a b k =
    let sound = Reach-IsSound r (outside-IsSound ts h) in
    ground (arith, sound.owned x, count_two (held x) s.threads i j p q ne a b)
