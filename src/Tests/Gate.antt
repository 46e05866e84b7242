-- ===== src/Tests/Gate.antt =====
-- Two threads at a gate.
use artisan.Prelude.{◌^◌, ◌≢◌, ◌≤◌, inl, refl, List, [], ◌∷◌, arith, All}
use artisan.Concurrency.Gate.{
  Pc, outside, reading, shared_loaded, exclusive_loaded, draining, writing, load_shared,
  load_exclusive, cas_exclusive, check_drained, step, Gate, move, Reach, here, next,
}
use artisan.Concurrency.Gate.Exclusion.{
  enter_exclusive-alone, pending_exclusive-blocks_shared, fresh, IsOutside, readers,
}

abbrev two : List Pc
two = outside ∷ outside ∷ []

two-IsOutside : All IsOutside two
two-IsOutside = (refl, (refl, tt))

-- One has set the writer's bit; the other has seen it, and stays outside.
abbrev waits : Gate
waits = record { word = 2 ^ 63; threads = draining ∷ outside ∷ [] }

abbrev entered : Gate
entered = record { word = 2 ^ 63; threads = writing ∷ outside ∷ [] }

to_waits : Reach (fresh two) waits
unfolding step
to_waits =
    next (next here (move (fresh two) 0 load_exclusive outside (0, exclusive_loaded 0) refl refl)) (
      move (record { word = 0; threads = exclusive_loaded 0 ∷ outside ∷ [] }) 0 cas_exclusive
        (exclusive_loaded 0) (2 ^ 63, draining) refl refl)

to_entered : Reach (fresh two) entered
unfolding step
to_entered = next to_waits (move waits 0 check_drained draining (2 ^ 63, writing) refl refl)

enter_exclusive-alone_example : (outside ≢ writing) × (outside ≢ reading)
enter_exclusive-alone_example =
    enter_exclusive-alone two {g = entered} 0 1 outside two-IsOutside to_entered
      (λ e. absurd (omega arith)) refl refl

-- The other thread loads the word while the first waits.
pending_exclusive-blocks_shared_example :
    readers (record { word = 2 ^ 63; threads = draining ∷ shared_loaded (2 ^ 63) ∷ [] })
    ≤ readers waits
unfolding step
pending_exclusive-blocks_shared_example =
    pending_exclusive-blocks_shared two {g = waits} 0 draining two-IsOutside to_waits refl
      (inl refl) (move waits 1 load_shared outside (2 ^ 63, shared_loaded (2 ^ 63)) refl refl)
