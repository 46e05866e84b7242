-- ===== src/Concurrency/Gate.antt =====
-- concurrency/gate.rs: a shared and exclusive admission gate in one
-- 64-bit word, its top bit the writer's and the rest a count. Each atomic operation is one step;
-- `adaptive_wait` only lets time pass. Operations on the word are sequentially consistent.
pub mod Exclusion
use artisan.Prelude.{
  ℕ, ◌+◌, ◌-◌, ◌*◌, ◌/◌, ◌%◌, ◌^◌, ◌≡◌, Bool, true, false, not, ◌&&◌, Option, none, some, List,
  ◌==◌, if◌then◌else◌, get_elem?, set,
}

abbrev pub write_bit : ℕ
write_bit = 2 ^ 63

abbrev pub count_mask : ℕ
count_mask = 2 ^ 63 - 1

-- `cur & WRITE_BIT == 0`
abbrev pub bit_clear : ℕ → Bool
bit_clear cur = cur / 2 ^ 63 == 0

-- `cur & COUNT_MASK`
abbrev pub count_of : ℕ → ℕ
count_of cur = cur % 2 ^ 63

-- Where a thread stands. `shared_loaded` and `exclusive_loaded` carry the word that they loaded.
pub data Pc : Type 0 where
  outside : Pc
  shared_loaded : (cur : ℕ) → Pc
  reading : Pc
  exclusive_loaded : (cur : ℕ) → Pc
  draining : Pc
  writing : Pc

pub data Action : Type 0 where
  load_shared cas_shared leave_shared load_exclusive cas_exclusive check_drained leave_exclusive
        spurious :
      Action

-- `enter_shared`, after its load.
abbrev pub try_shared : ℕ → ℕ → ℕ × Pc
try_shared word cur =
    if bit_clear cur && (not (count_of cur == count_mask) && word == cur)
    then (cur + 1, reading)
    else (word, outside)

-- `enter_exclusive`, after its load: the writer's bit is set before the readers have left.
abbrev pub try_exclusive : ℕ → ℕ → ℕ × Pc
try_exclusive word cur =
    if bit_clear cur && word == cur then (cur + write_bit, draining) else (word, outside)

-- One atomic operation of a thread. A weak exchange may fail for no reason.
unfoldable pub step : Action → ℕ → Pc → Option (ℕ × Pc)
step load_shared word outside = some (word, shared_loaded word)
step cas_shared word (shared_loaded cur) = some (try_shared word cur)
step leave_shared word reading = some ((word + 2 ^ 64 - 1) % 2 ^ 64, outside)
step load_exclusive word outside = some (word, exclusive_loaded word)
step cas_exclusive word (exclusive_loaded cur) = some (try_exclusive word cur)
step check_drained word draining = some (word, if count_of word == 0 then writing else draining)
step leave_exclusive word writing = some (0, outside)
step spurious word (shared_loaded cur) = some (word, outside)
step spurious word (exclusive_loaded cur) = some (word, outside)
step a word pc = none

pub record Gate : Type 0 where
  pub word : ℕ
  pub threads : List Pc

-- Thread `i` takes one step.
pub data Step : Gate → Gate → Type 0 where
  move :
      (g : Gate) (i : ℕ) (a : Action) (pc : Pc) (r : ℕ × Pc)
      → get_elem? g.threads i ≡ some pc
      → step a g.word pc ≡ some r
      → Step g (record { word = r.0; threads = set g.threads i r.1 })

pub data Reach (s : Gate) : Gate → Type 0 where
  here : Reach s s
  next : {t u : Gate} → Reach s t → Step t u → Reach s u
