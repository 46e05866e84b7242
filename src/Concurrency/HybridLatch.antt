-- ===== src/Concurrency/HybridLatch.antt =====
-- concurrency/hybrid_latch.rs: optimistic, shared and exclusive access to one value. Each atomic
-- operation is one step, sequentially consistent. `value` stands for the latched bytes; `releases`
-- and `committed` are not in the code: how often an exclusive holder has released, and the value
-- that the last of them left.
pub mod Bounds
pub mod Optimistic
use artisan.Prelude.{
  ℕ, ◌+◌, ◌-◌, ◌%◌, ◌^◌, ◌≡◌, Bool, true, false, not, ◌&&◌, Option, none, some, List, [], ◌∷◌, ◌==◌,
  ltb, leb, if◌then◌else◌, get_elem?, set,
}

-- `u32::MAX`
abbrev pub writer : ℕ
writer = 2 ^ 32 - 1

pub record Latch : Type 0 where
  pub counter : ℕ
  pub version : ℕ
  pub value : ℕ
  pub releases : ℕ
  pub committed : ℕ

-- Where a thread stands. An optimistic reader carries the count of releases at its load of the
-- version, the version, and the values that it has read since.
pub data Pc : Type 0 where
  idle : Pc
  loaded_version : (n v : ℕ) → Pc
  optimistic : (n v : ℕ) (reads : List ℕ) → Pc
  seen_counter : (n v : ℕ) (reads : List ℕ) → Pc
  validated : (reads : List ℕ) → Pc
  loaded_shared : (cur : ℕ) → Pc
  shared : Pc
  exclusive : Pc
  bumped : Pc

pub data Action : Type 0 where
  load_version check_idle read validate_counter validate_version : Action
  load_shared cas_shared release_shared : Action
  cas_exclusive bump clear : Action
  write : (value : ℕ) → Action

-- The operations of `acquire_optimistic`, a read of the bytes, `validate`, `acquire_shared`,
-- `release_shared`, `acquire_exclusive`, a write of the bytes, and the two of `release_exclusive`.
unfoldable pub step : Action → Latch → Pc → Option (Latch × Pc)
step load_version l idle = some (l, loaded_version l.releases l.version)
step check_idle l (loaded_version n v) =
    some (l, if l.counter == writer then idle else optimistic n v [])
step read l (optimistic n v reads) = some (l, optimistic n v (l.value ∷ reads))
step validate_counter l (optimistic n v reads) =
    some (l, if l.counter == writer then idle else seen_counter n v reads)
step validate_version l (seen_counter n v reads) =
    some (l, if l.version == v then validated reads else idle)
step load_shared l idle = some (l, loaded_shared l.counter)
step cas_shared l (loaded_shared cur) = some (
    if ltb cur (writer - 1) && l.counter == cur
    then (record l { counter = cur + 1 }, shared)
    else (l, idle))
step release_shared l shared = some (record l { counter = (l.counter + 2 ^ 32 - 1) % 2 ^ 32 }, idle)
step cas_exclusive l idle =
    some (if l.counter == 0 then (record l { counter = writer }, exclusive) else (l, idle))
step (write value) l exclusive = some (record l { value = value }, exclusive)
step bump l exclusive = some (
  record l { version = (l.version + 1) % 2 ^ 64; releases = l.releases + 1; committed = l.value },
  bumped,
)
step clear l bumped = some (record l { counter = 0 }, idle)
step a l pc = none

pub record System : Type 0 where
  pub latch : Latch
  pub threads : List Pc

pub data Step : System → System → Type 0 where
  move :
      (s : System) (i : ℕ) (a : Action) (pc : Pc) (r : Latch × Pc)
      → get_elem? s.threads i ≡ some pc
      → step a s.latch pc ≡ some r
      → Step s (record { latch = r.0; threads = set s.threads i r.1 })

pub data Reach (s : System) : System → Type 0 where
  here : Reach s s
  next : {t u : System} → Reach s t → Step t u → Reach s u

-- `HybridLatch::new`, over any bytes.
abbrev pub fresh : ℕ → Latch
fresh value = record { counter = 0; version = 0; value = value; releases = 0; committed = value }
