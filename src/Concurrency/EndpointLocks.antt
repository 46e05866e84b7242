-- ===== src/Concurrency/EndpointLocks.antt =====
-- concurrency/endpoint_locks.rs: the locks of the endpoints of an operation on two keys.
-- A shard is a flag; a thread that finds it set spins and stays where it is, which is no step here.
pub mod Order
pub mod Deadlock
use Prim.Native.Nat.{bit_xor}
use artisan.Prelude.{
  ℕ, ◌+◌, ◌*◌, ◌%◌, ◌^◌, Bool, true, false, ◌||◌, Option, none, some, List, [], ◌∷◌, ltb, ◌==◌,
  if◌then◌else◌, get_elem?, set, ◌≡◌,
}

abbrev pub endpoint_lock_shards : ℕ
endpoint_lock_shards = 256

-- The FNV-1a hash of the key, on a u64.
abbrev pub fnv : ℕ → List ℕ → ℕ
fnv h [] = h
fnv h (b ∷ key) = fnv (bit_xor h b * 0x100_0000_01b3 % 2 ^ 64) key

unfoldable pub shard_index : List ℕ → ℕ
shard_index key = fnv 0xcbf2_9ce4_8422_2325 key % endpoint_lock_shards

-- Where a thread stands in `lock_key` or `lock_pair`, with a guard, or in the drop of a guard, which
-- gives the first lock back before the second.
pub data Pc : Type 0 where
  outside : Pc
  wants : (first : ℕ) (second : Option ℕ) → Pc
  wants_second : (first second : ℕ) → Pc
  holds : (first : ℕ) (second : Option ℕ) → Pc
  releasing : (second : ℕ) → Pc

-- The order in which `lock_pair` takes two shards.
unfoldable pub lock_order : ℕ → ℕ → Pc
lock_order src_idx dst_idx =
    if src_idx == dst_idx
    then wants src_idx none
    else if ltb src_idx dst_idx
    then wants src_idx (some dst_idx)
    else wants dst_idx (some src_idx)

pub data Action : Type 0 where
  lock_key : (key : List ℕ) → Action
  lock_pair : (src dst : List ℕ) → Action
  acquire release : Action

abbrev pub set_locked : (ℕ → Bool) → ℕ → Bool → ℕ → Bool
set_locked locked i b j = if j == i then b else locked j

-- `EndpointShard::lock`, when its exchange succeeds.
abbrev pub try_lock : (ℕ → Bool) → ℕ → Pc → Option ((ℕ → Bool) × Pc)
try_lock locked i pc = if locked i then none else some (set_locked locked i true, pc)

unfoldable pub step : Action → (ℕ → Bool) → Pc → Option ((ℕ → Bool) × Pc)
step (lock_key key) locked outside = some (locked, wants (shard_index key) none)
step (lock_pair src dst) locked outside =
    some (locked, lock_order (shard_index src) (shard_index dst))
step acquire locked (wants i none) = try_lock locked i (holds i none)
step acquire locked (wants i (some j)) = try_lock locked i (wants_second i j)
step acquire locked (wants_second i j) = try_lock locked j (holds i (some j))
step release locked (holds i none) = some (set_locked locked i false, outside)
step release locked (holds i (some j)) = some (set_locked locked i false, releasing j)
step release locked (releasing j) = some (set_locked locked j false, outside)
step a locked pc = none

pub record EndpointLocks : Type 0 where
  pub locked : ℕ → Bool
  pub threads : List Pc

pub data Step : EndpointLocks → EndpointLocks → Type 0 where
  move :
      (s : EndpointLocks) (i : ℕ) (a : Action) (pc : Pc) (r : (ℕ → Bool) × Pc)
      → get_elem? s.threads i ≡ some pc
      → step a s.locked pc ≡ some r
      → Step s (record { locked = r.0; threads = set s.threads i r.1 })

pub data Reach (s : EndpointLocks) : EndpointLocks → Type 0 where
  here : Reach s s
  next : {t u : EndpointLocks} → Reach s t → Step t u → Reach s u
