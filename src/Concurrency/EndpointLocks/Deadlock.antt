-- ===== src/Concurrency/EndpointLocks/Deadlock.antt =====
-- The order of the shards keeps threads from waiting for each other in a circle.

use artisan.Prelude.{
  ℕ, zero, suc, ◌+◌, ◌≤◌, ◌<◌, ◌≡◌, ◌≢◌, inl, inr, refl, Bool, true, false, none, some, List, [],
  ◌∷◌, arith, get_elem?, All, Bool-cases,
}
use artisan.Concurrency.Threads.{count}
use artisan.Concurrency.EndpointLocks.{
  Pc, outside, wants, wants_second, holds, releasing, Action, acquire, release, set_locked,
  try_lock, step, EndpointLocks, Reach,
}
use artisan.Concurrency.EndpointLocks.Order.{
  held, IsOrdered, IsSound, All-get, Reach-IsSound, IsOutside, fresh, outside-IsSound,
}

-- A count that is not 0 has a thread.
count_find :
    (p : Pc → Bool) (ts : List Pc)
    → 1 ≤ count p ts
    → (i : ℕ) × (pc : Pc) × (get_elem? ts i ≡ some pc) × (p pc ≡ true)
count_find p [] h = absurd (omega arith)
count_find p (t ∷ ts) h = elim (Bool-cases (p t)) [
  | inl e ↦ (0, t, refl, e)
  | inr e ↦ let (i, pc, at, q) = count_find p ts (ground arith) in (suc i, pc, at, q)
]

-- Some thread that is inside one of the calls or has a guard can take a step of its own.
pub record CanMove (s : EndpointLocks) : Type 0 where
  pub index : ℕ
  pub pc : Pc
  pub result : (ℕ → Bool) × Pc
  pub action : Action
  pub at : get_elem? s.threads index ≡ some pc
  pub inside : pc ≢ outside
  pub steps : step action s.locked pc ≡ some result

try_lock_ok :
    (locked : ℕ → Bool) (i : ℕ) (pc : Pc)
    → locked i ≡ false
    → try_lock locked i pc ≡ some (set_locked locked i true, pc)
try_lock_ok locked i pc e = rw e refl

module _ (s : EndpointLocks) (h : IsSound s) where
  -- A thread with a guard, or between its two locks: it moves, or it waits for a greater shard.
  holder-CanMove :
      (n x i : ℕ) (pc : Pc)
      → ((y : ℕ) → 256 ≤ y + n → y < 256 → s.locked y ≡ true → CanMove s)
      → get_elem? s.threads i ≡ some pc
      → IsOrdered pc
      → held x pc ≡ true
      → 256 ≤ x + suc n
      → CanMove s
  unfolding step
  holder-CanMove n x i outside up at o q k = absurd (cc q)
  holder-CanMove n x i (wants a b) up at o q k = absurd (cc q)
  holder-CanMove n x i (wants_second a b) up at o q k = elim (Bool-cases (s.locked b)) [
    | inl t ↦ up b (ground (arith, o)) (o.1) t
    | inr t ↦ record {
      index = i;
      pc = wants_second a b;
      result = _;
      action = acquire;
      at = at;
      inside = λ e. absurd (cc e);
      steps = try_lock_ok s.locked b (holds a (some b)) t;
    }
  ]
  holder-CanMove n x i (holds a none) up at o q k = record {
    index = i;
    pc = holds a none;
    result = _;
    action = release;
    at = at;
    inside = λ e. absurd (cc e);
    steps = refl;
  }
  holder-CanMove n x i (holds a (some b)) up at o q k = record {
    index = i;
    pc = holds a (some b);
    result = _;
    action = release;
    at = at;
    inside = λ e. absurd (cc e);
    steps = refl;
  }
  holder-CanMove n x i (releasing b) up at o q k = record {
    index = i;
    pc = releasing b;
    result = _;
    action = release;
    at = at;
    inside = λ e. absurd (cc e);
    steps = refl;
  }

  -- The holders of greater and greater shards lead to one that moves.
  locked-CanMove : (n x : ℕ) → 256 ≤ x + n → x < 256 → s.locked x ≡ true → CanMove s
  locked-CanMove zero x k b l = absurd (omega arith)
  locked-CanMove (suc n) x k b l =
      let (i, pc, at, q) = count_find (held x) s.threads (ground (arith, h.owned x)) in
      holder-CanMove n x i pc (λ y. locked-CanMove n y) at (All-get s.threads i pc h.ordered at) q k

  thread-CanMove :
      (i : ℕ) (pc : Pc) → get_elem? s.threads i ≡ some pc → IsOrdered pc → pc ≢ outside → CanMove s
  unfolding step
  thread-CanMove i outside at o ne = absurd (ne refl)
  thread-CanMove i (wants a none) at o ne = elim (Bool-cases (s.locked a)) [
    | inl t ↦ locked-CanMove 256 a (omega arith) o t
    | inr t ↦ record {
      index = i;
      pc = wants a none;
      result = _;
      action = acquire;
      at = at;
      inside = ne;
      steps = try_lock_ok s.locked a (holds a none) t;
    }
  ]
  thread-CanMove i (wants a (some b)) at o ne = elim (Bool-cases (s.locked a)) [
    | inl t ↦ locked-CanMove 256 a (omega arith) (omega (arith, o.0, o.1)) t
    | inr t ↦ record {
      index = i;
      pc = wants a (some b);
      result = _;
      action = acquire;
      at = at;
      inside = ne;
      steps = try_lock_ok s.locked a (wants_second a b) t;
    }
  ]
  thread-CanMove i (wants_second a b) at o ne = elim (Bool-cases (s.locked b)) [
    | inl t ↦ locked-CanMove 256 b (omega arith) o.1 t
    | inr t ↦ record {
      index = i;
      pc = wants_second a b;
      result = _;
      action = acquire;
      at = at;
      inside = ne;
      steps = try_lock_ok s.locked b (holds a (some b)) t;
    }
  ]
  thread-CanMove i (holds a none) at o ne = record {
    index = i;
    pc = holds a none;
    result = _;
    action = release;
    at = at;
    inside = ne;
    steps = refl;
  }
  thread-CanMove i (holds a (some b)) at o ne = record {
    index = i;
    pc = holds a (some b);
    result = _;
    action = release;
    at = at;
    inside = ne;
    steps = refl;
  }
  thread-CanMove i (releasing b) at o ne = record {
    index = i;
    pc = releasing b;
    result = _;
    action = release;
    at = at;
    inside = ne;
    steps = refl;
  }

-- There is no deadlock: in every interleaving of threads that start outside, while any thread is
-- inside a call or has a guard, some such thread can take a step, by a lock that is free or a
-- release.
pub lock_pair-CanMove :
    (ts : List Pc) {s : EndpointLocks} (i : ℕ) (pc : Pc)
    → All IsOutside ts
    → Reach (fresh ts) s
    → get_elem? s.threads i ≡ some pc
    → pc ≢ outside
    → CanMove s
lock_pair-CanMove ts {s} i pc h r at ne =
    let sound = Reach-IsSound r (outside-IsSound ts h) in
    thread-CanMove s sound i pc at (All-get s.threads i pc sound.ordered at) ne
