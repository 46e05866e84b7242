-- ===== src/Tests/Latch.antt =====
-- A writer and an optimistic reader on a latch.
use artisan.Prelude.{◌≢◌, refl, List, [], ◌∷◌, arith, All}
use artisan.Concurrency.HybridLatch.{
  Latch, Pc, idle, loaded_version, optimistic, seen_counter, shared, exclusive, bumped,
  load_version, check_idle, read, validate_counter, cas_exclusive, step, System, move, Reach, here,
  next, writer,
}
use artisan.Concurrency.HybridLatch.Bounds.{acquire_exclusive-alone, IsIdle, start}
use artisan.Concurrency.HybridLatch.Optimistic.{validate-committed, AllRead}

abbrev two : List Pc
two = idle ∷ idle ∷ []

two-IsIdle : All IsIdle two
two-IsIdle = (refl, (refl, tt))

abbrev free_latch : Latch
free_latch = record { counter = 0; version = 0; value = 4; releases = 0; committed = 4 }

abbrev with : Latch → Pc → Pc → System
with l p q = record { latch = l; threads = p ∷ q ∷ [] }

abbrev held_latch : Latch
held_latch = record free_latch { counter = writer }

to_held : Reach (start 4 two) (with held_latch exclusive idle)
unfolding step
to_held = next here (move (start 4 two) 0 cas_exclusive idle (held_latch, exclusive) refl refl)

acquire_exclusive-alone_example : (idle ≢ exclusive) × (idle ≢ shared) × (idle ≢ bumped)
acquire_exclusive-alone_example =
    acquire_exclusive-alone 4 two {s = with held_latch exclusive idle} 0 1 idle two-IsIdle to_held
      (λ e. absurd (omega arith)) refl refl

-- The second thread reads the value once and has seen the counter.
to_seen : Reach (start 4 two) (with free_latch idle (seen_counter 0 0 (4 ∷ [])))
unfolding step
to_seen =
    next
      (next
        (next
          (next here
            (move (start 4 two) 1 load_version idle (free_latch, loaded_version 0 0) refl refl))
          (move (with free_latch idle (loaded_version 0 0)) 1 check_idle (loaded_version 0 0)
            (free_latch, optimistic 0 0 []) refl refl))
        (move (with free_latch idle (optimistic 0 0 [])) 1 read (optimistic 0 0 [])
          (free_latch, optimistic 0 0 (4 ∷ [])) refl refl))
      (move (with free_latch idle (optimistic 0 0 (4 ∷ []))) 1 validate_counter
        (optimistic 0 0 (4 ∷ [])) (free_latch, seen_counter 0 0 (4 ∷ [])) refl refl)

validate-committed_example : AllRead 4 (4 ∷ [])
validate-committed_example =
    validate-committed 4 two {s = with free_latch idle (seen_counter 0 0 (4 ∷ []))} 1 0 0 (4 ∷ [])
      two-IsIdle to_seen refl (omega arith) refl
