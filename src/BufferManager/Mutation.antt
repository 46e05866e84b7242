-- ===== src/BufferManager/Mutation.antt =====
-- store/buffer_manager/mutation.rs: the bookkeeping of one shard. A map is the function of its
-- lookups, a set its membership test, and a guid the number of its 16 bytes.
pub mod Flushing
pub mod Queue
use artisan.Prelude.{
  ℕ, zero, suc, ◌+◌, ◌-◌, ◌%◌, ◌^◌, Bool, true, false, ◌||◌, not, Option, none, some, List, [], ◌∷◌,
  ◌++◌, ◌==◌, if◌then◌else◌,
}

abbrev pub update {ℓ} : {A : Type ℓ} → (ℕ → A) → ℕ → A → ℕ → A
update f g v h = if h == g then v else f h

pub record MaintenanceQueue : Type 0 where
  pub set : ℕ → Bool
  pub queue : List ℕ

unfoldable pub insert : ℕ → MaintenanceQueue → Bool × MaintenanceQueue
insert guid q =
    if q.set guid
    then (false, q)
    else (true, record { set = update q.set guid true; queue = q.queue ++ (guid ∷ []) })

unfoldable pub remove : ℕ → MaintenanceQueue → Bool × MaintenanceQueue
remove guid q = (q.set guid, record q { set = update q.set guid false })

-- `while out.len() < limit`, by what is left of the limit and of the queue
unfoldable pub pop_loop : ℕ → (ℕ → Bool) → List ℕ → List ℕ × MaintenanceQueue
pop_loop zero s q = ([], record { set = s; queue = q })
pop_loop (suc n) s [] = ([], record { set = s; queue = [] })
pop_loop (suc n) s (guid ∷ q) = elim (s guid) [
  | true ↦ let (out, r) = pop_loop n (update s guid false) q in (guid ∷ out, r)
  | false ↦ pop_loop (suc n) s q
]

unfoldable pub pop_batch : ℕ → MaintenanceQueue → List ℕ × MaintenanceQueue
pop_batch limit q = pop_loop limit q.set q.queue

pub record MutationState : Type 0 where
  pub dirty : ℕ → Option ℕ
  pub flushing : ℕ → Option ℕ
  pub pending_deletes : ℕ → Option ℕ
  pub compact_candidates : MaintenanceQueue
  pub merge_candidates : MaintenanceQueue

abbrev pub contains_key : (ℕ → Option ℕ) → ℕ → Bool
contains_key f guid = elim (f guid) [ none ↦ false | some v ↦ true ]

unfoldable pub is_protected : ℕ → MutationState → Bool
is_protected guid s = contains_key s.dirty guid || contains_key s.flushing guid

unfoldable pub is_protected_or_pending : ℕ → MutationState → Bool
is_protected_or_pending guid s = is_protected guid s || contains_key s.pending_deletes guid

unfoldable pub remove_dirty : ℕ → MutationState → MutationState
remove_dirty guid s = record s {
  dirty = update s.dirty guid none;
  flushing = update s.flushing guid none;
}

-- `*entry.or_insert(0) += 1`
abbrev pub increment : Option ℕ → Option ℕ
increment none = some 1
increment (some n) = some ((n + 1) % 2 ^ 64)

-- `*count -= 1; if *count == 0 { remove }`
abbrev pub decrement : Option ℕ → Option ℕ
decrement none = none
decrement (some n) =
    if (n + 2 ^ 64 - 1) % 2 ^ 64 == 0 then none else some ((n + 2 ^ 64 - 1) % 2 ^ 64)

unfoldable pub add_flushing : ℕ → MutationState → MutationState
add_flushing guid s = record s { flushing = update s.flushing guid (increment (s.flushing guid)) }

unfoldable pub remove_one_flushing : ℕ → MutationState → MutationState
remove_one_flushing guid s = record s {
  flushing = update s.flushing guid (decrement (s.flushing guid));
}

unfoldable pub remove_maintenance_candidates : ℕ → MutationState → (Bool × Bool) × MutationState
remove_maintenance_candidates guid s =
    let (c, cq) = remove guid s.compact_candidates in
    let (m, mq) = remove guid s.merge_candidates in
    ((c, m), record s { compact_candidates = cq; merge_candidates = mq })
