-- ===== src/Tests/Locks.antt =====
-- Two threads that lock the same two shards.
use artisan.Prelude.{ℕ, ◌≡◌, refl, true, false, some, List, [], ◌∷◌, arith, All}
use artisan.Concurrency.EndpointLocks.{
  Pc, outside, wants, wants_second, lock_order, shard_index, lock_pair, acquire, set_locked, step,
  EndpointLocks, move, Reach, here, next,
}
use artisan.Concurrency.EndpointLocks.Order.{IsOutside, fresh, held, lock_pair-exclusive}
use artisan.Concurrency.EndpointLocks.Deadlock.{CanMove, lock_pair-CanMove}

abbrev two : List Pc
two = outside ∷ outside ∷ []

two-IsOutside : All IsOutside two
two-IsOutside = (refl, (refl, tt))

abbrev a : List ℕ
a = 97 ∷ []

abbrev b : List ℕ
b = 98 ∷ []

-- Both threads have asked for the two shards, in opposite order, and the first has one of them.
abbrev asked : Pc
asked = wants 140 (some 165)

abbrev locked_one : EndpointLocks
locked_one = record {
  locked = set_locked (λ i. false) 140 true;
  threads = wants_second 140 165 ∷ asked ∷ [];
}

to_locked : Reach (fresh two) locked_one
unfolding step lock_order shard_index
to_locked =
    next
      (next
        (next here (
          move (fresh two) 0 (lock_pair a b) outside
            ((λ i. false), lock_order (shard_index a) (shard_index b)) refl refl))
        (move
          (record {
            locked = λ i. false;
            threads = lock_order (shard_index a) (shard_index b) ∷ outside ∷ [];
          })
          1 (lock_pair b a) outside ((λ i. false), lock_order (shard_index b) (shard_index a)) refl
          refl))
      (move (record { locked = λ i. false; threads = asked ∷ asked ∷ [] }) 0 acquire asked
        (set_locked (λ i. false) 140 true, wants_second 140 165) refl refl)

lock_pair-CanMove_example : CanMove locked_one
lock_pair-CanMove_example =
    lock_pair-CanMove two {s = locked_one} 1 asked two-IsOutside to_locked refl (λ e. absurd (cc e))

lock_pair-exclusive_example : held 140 asked ≡ false
lock_pair-exclusive_example =
    lock_pair-exclusive two {s = locked_one} 0 1 140 (wants_second 140 165) asked two-IsOutside
      to_locked (λ e. absurd (omega arith)) refl refl refl
