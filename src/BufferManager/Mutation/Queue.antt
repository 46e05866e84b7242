-- ===== src/BufferManager/Mutation/Queue.antt =====
-- A candidate that is in the set of store/buffer_manager/mutation.rs is not lost.
use artisan.Prelude.{
  ℕ, zero, suc, ◌≤◌, ◌≡◌, ◌⊎◌, inl, inr, refl, sym, ap, ◌∙◌, Bool, true, false, ◌||◌, List, [], ◌∷◌,
  ◌++◌, ◌==◌, length, arith, tests, Bool-cases,
}
use artisan.BufferManager.Mutation.{MaintenanceQueue, update, insert, remove, pop_loop, pop_batch}

abbrev pub mem : ℕ → List ℕ → Bool
mem g [] = false
mem g (h ∷ q) = (g == h) || mem g q

-- Every candidate of the set is in the queue.
abbrev pub IsQueued : MaintenanceQueue → Type 0
IsQueued q = (g : ℕ) → q.set g ≡ true → mem g q.queue ≡ true

mem-append : (g : ℕ) (q r : List ℕ) → mem g (q ++ r) ≡ (mem g q || mem g r)
mem-append g [] r = refl
mem-append g (h ∷ q) r = ground (arith, mem-append g q r)

or_true : (b : Bool) → (b || true) ≡ true
or_true true = refl
or_true false = refl

insert_old : (g : ℕ) (q : MaintenanceQueue) → q.set g ≡ true → insert g q ≡ (false, q)
unfolding insert
insert_old g q e = rw (insert, e) refl

insert_new :
    (g : ℕ) (q : MaintenanceQueue)
    → q.set g ≡ false
    → insert g q ≡ (true, record { set = update q.set g true; queue = q.queue ++ (g ∷ []) })
unfolding insert
insert_new g q e = rw (insert, e) refl

update-cases :
    (s : ℕ → Bool) (g h : ℕ) (b : Bool)
    → ((h ≡ g) × (update s g b h ≡ b)) ⊎ (((h == g) ≡ false) × (update s g b h ≡ s h))
update-cases s g h b = elim (Bool-cases (h == g)) [
  | inl t ↦ inl (grind tests, rw t refl)
  | inr t ↦ inr (t, rw t refl)
]

mem_new :
    (h g : ℕ) (q : MaintenanceQueue)
    → IsQueued q
    → update q.set g true h ≡ true
    → mem h (q.queue ++ (g ∷ [])) ≡ true
mem_new h g q k e = mem-append h q.queue (g ∷ []) ∙ elim (update-cases q.set g h true) [
  | inl (j, u) ↦ let t : (h == g) ≡ true = grind tests in rw t (or_true (mem h q.queue))
  | inr (t, u) ↦ ap (λ b. b || mem h (g ∷ [])) (k h (sym u ∙ e))
]

insert-IsQueued : (g : ℕ) (q : MaintenanceQueue) → IsQueued q → IsQueued (insert g q).1
insert-IsQueued g q k h e = elim (Bool-cases (q.set g)) [
  | inl t ↦ rw (insert_old g q t) (k h (ap (λ r. r.1.set h) (sym (insert_old g q t)) ∙ e))
  | inr t ↦
      rw (insert_new g q t) (mem_new h g q k (ap (λ r. r.1.set h) (sym (insert_new g q t)) ∙ e))
]

module _ (n : ℕ) (s : ℕ → Bool) (h : ℕ) (q : List ℕ) where
  pop_loop-hit :
      s h ≡ true
      → pop_loop (suc n) s (h ∷ q)
        ≡ (h ∷ (pop_loop n (update s h false) q).0, (pop_loop n (update s h false) q).1)
  unfolding pop_loop
  pop_loop-hit e = rw (pop_loop, e) refl

  pop_loop-miss : s h ≡ false → pop_loop (suc n) s (h ∷ q) ≡ pop_loop (suc n) s q
  unfolding pop_loop
  pop_loop-miss e = rw (pop_loop, e) refl

pop_loop-length : (n : ℕ) (s : ℕ → Bool) (q : List ℕ) → length (pop_loop n s q).0 ≤ n
unfolding pop_loop
pop_loop-length zero s q = omega arith
pop_loop-length (suc n) s [] = omega arith
pop_loop-length (suc n) s (g ∷ q) = elim (Bool-cases (s g)) [
  | inl e ↦ rw (pop_loop-hit n s g q e) (omega (arith, pop_loop-length n (update s g false) q))
  | inr e ↦ rw (pop_loop-miss n s g q e) (pop_loop-length (suc n) s q)
]

hit_set :
    (n : ℕ) (s : ℕ → Bool) (h : ℕ) (q : List ℕ) (g : ℕ)
    → s h ≡ true
    → ((pop_loop n (update s h false) q).1.set g || mem g (pop_loop n (update s h false) q).0)
      ≡ update s h false g
    → ((pop_loop n (update s h false) q).1.set g || mem g (h ∷ (pop_loop n (update s h false) q).0))
      ≡ s g
hit_set n s h q g e i = elim (Bool-cases (g == h)) [
  | inl t ↦ let j : g ≡ h = grind tests in rw t (or_true _ ∙ sym (ap s j ∙ e))
  | inr t ↦ rw t (i ∙ rw t refl)
]

-- What is handed out is what leaves the set.
pop_loop-set :
    (n : ℕ) (s : ℕ → Bool) (q : List ℕ) (g : ℕ)
    → ((pop_loop n s q).1.set g || mem g (pop_loop n s q).0) ≡ s g
unfolding pop_loop
pop_loop-set zero s q g = ground arith
pop_loop-set (suc n) s [] g = ground arith
pop_loop-set (suc n) s (h ∷ q) g = elim (Bool-cases (s h)) [
  | inl e ↦
      rw (pop_loop-hit n s h q e) (hit_set n s h q g e (pop_loop-set n (update s h false) q g))
  | inr e ↦ rw (pop_loop-miss n s h q e) (pop_loop-set (suc n) s q g)
]

set_before :
    (n : ℕ) (s : ℕ → Bool) (q : List ℕ) (g : ℕ) → (pop_loop n s q).1.set g ≡ true → s g ≡ true
set_before n s q g k = sym (pop_loop-set n s q g) ∙ ap (λ b. b || mem g (pop_loop n s q).0) k

apart : (s : ℕ → Bool) (g h : ℕ) → s g ≡ true → s h ≡ false → (g == h) ≡ false
apart s g h a b = elim (Bool-cases (g == h)) [
  | inl t ↦ let j : g ≡ h = grind tests in absurd (cc (a, b, j))
  | inr t ↦ t
]

mem_tail : (g h : ℕ) (q : List ℕ) → (g == h) ≡ false → mem g (h ∷ q) ≡ true → mem g q ≡ true
mem_tail g h q t m = sym (ap (λ b. b || mem g q) t) ∙ m

update_same : (s : ℕ → Bool) (h : ℕ) → update s h false h ≡ false
update_same s h = ground arith

pop_loop-queue :
    (n : ℕ) (s : ℕ → Bool) (q : List ℕ) (g : ℕ)
    → (pop_loop n s q).1.set g ≡ true
    → mem g q ≡ true
    → mem g (pop_loop n s q).1.queue ≡ true
unfolding pop_loop
pop_loop-queue zero s q g k m = m
pop_loop-queue (suc n) s [] g k m = m
pop_loop-queue (suc n) s (h ∷ q) g k m = elim (Bool-cases (s h)) [
  | inl e ↦
      let k' : (pop_loop n (update s h false) q).1.set g ≡ true =
        ap (λ r. r.1.set g) (sym (pop_loop-hit n s h q e)) ∙ k in
      let d : (g == h) ≡ false =
        apart (update s h false) g h (set_before n (update s h false) q g k') (update_same s h) in
      rw (pop_loop-hit n s h q e) (pop_loop-queue n (update s h false) q g k' (mem_tail g h q d m))
  | inr e ↦
      let k' : (pop_loop (suc n) s q).1.set g ≡ true =
        ap (λ r. r.1.set g) (sym (pop_loop-miss n s h q e)) ∙ k in
      rw (pop_loop-miss n s h q e) (
        pop_loop-queue (suc n) s q g k'
          (mem_tail g h q (apart s g h (set_before (suc n) s q g k') e) m))
]

-- A batch hands out at most `limit` candidates; a candidate was in the set just when it is handed
-- out or still in the set; and each that is still in the set is still in the queue, so that a later
-- batch reaches it.
pub pop_batch-exact :
    (limit : ℕ) (q : MaintenanceQueue)
    → IsQueued q
    → length (pop_batch limit q).0 ≤ limit
      × (((g : ℕ) → ((pop_batch limit q).1.set g || mem g (pop_batch limit q).0) ≡ q.set g)
          × IsQueued (pop_batch limit q).1)
unfolding pop_batch
pop_batch-exact limit q k = (
  pop_loop-length limit q.set q.queue,
  (
    pop_loop-set limit q.set q.queue,
    λ g e. pop_loop-queue limit q.set q.queue g e (k g (set_before limit q.set q.queue g e)),
  ),
)

abbrev pub none_queued : MaintenanceQueue
none_queued = record { set = λ g. false; queue = [] }

pub data Reachable : MaintenanceQueue → Type 0 where
  start : Reachable none_queued
  inserted : (g : ℕ) {q : MaintenanceQueue} → Reachable q → Reachable (insert g q).1
  removed : (g : ℕ) {q : MaintenanceQueue} → Reachable q → Reachable (remove g q).1
  popped : (limit : ℕ) {q : MaintenanceQueue} → Reachable q → Reachable (pop_batch limit q).1

remove-IsQueued : (g : ℕ) (q : MaintenanceQueue) → IsQueued q → IsQueued (remove g q).1
unfolding remove
remove-IsQueued g q k h e = elim (update-cases q.set g h false) [
  | inl (j, u) ↦ absurd (cc (u, e))
  | inr (t, u) ↦ k h (sym u ∙ e)
]

-- In every queue that inserts, removals and batches make from the empty one, each candidate of the
-- set is in the queue.
pub Reachable-IsQueued : {q : MaintenanceQueue} → Reachable q → IsQueued q
Reachable-IsQueued start = λ g e. absurd (cc e)
Reachable-IsQueued (inserted h {q = q} r) = insert-IsQueued h q (Reachable-IsQueued r)
Reachable-IsQueued (removed h {q = q} r) = remove-IsQueued h q (Reachable-IsQueued r)
Reachable-IsQueued (popped n {q = q} r) = (pop_batch-exact n q (Reachable-IsQueued r)).1.1
