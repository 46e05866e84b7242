-- ===== src/BufferManager/Mutation/Flushing.antt =====
-- The counts of epochs of store/buffer_manager/mutation.rs.
use artisan.Prelude.{
  ℕ, ◌+◌, ◌-◌, ◌%◌, ◌^◌, ◌≤◌, ◌<◌, ◌≡◌, inl, inr, refl, sym, ap, ◌∙◌, true, false, Option, none,
  some, ◌==◌, arith, tests, Bool-cases,
}
use artisan.BufferManager.Mutation.{
  MutationState, update, increment, decrement, add_flushing, remove_one_flushing,
}

-- A count is that of at least one epoch, and below the largest.
abbrev pub IsCount : Option ℕ → Type 0
IsCount none = Unit {0}
IsCount (some n) = 1 ≤ n × n + 1 < 2 ^ 64

decrement-increment : (o : Option ℕ) → IsCount o → decrement (increment o) ≡ o
decrement-increment none h = refl
decrement-increment (some n) (h, k) =
    let e : ((n + 1) % 2 ^ 64 + 2 ^ 64 - 1) % 2 ^ 64 ≡ n = omega arith in
    let z : (n == 0) ≡ false = ground arith in rw (e, z) refl

update_same : {A : Type 0} (f : ℕ → A) (g : ℕ) (v : A) → update f g v g ≡ v
update_same f g v = let e : (g == g) ≡ true = ground arith in rw e refl

update-update :
    {A : Type 0} (f : ℕ → A) (g : ℕ) (v w : A) (h : ℕ) → w ≡ f g → update (update f g v) g w h ≡ f h
update-update f g v w h e = elim (Bool-cases (h == g)) [
  | inl t ↦ let i : h ≡ g = grind tests in rw t (e ∙ ap f (sym i))
  | inr t ↦ rw t refl
]

-- An epoch that takes a blob and gives it back leaves the counts of every blob as they were,
-- whichever epochs already own the blob.
remove_one_flushing-add_flushing :
    (s : MutationState) (g : ℕ)
    → IsCount (s.flushing g)
    → (h : ℕ) → (remove_one_flushing g (add_flushing g s)).flushing h ≡ s.flushing h
unfolding remove_one_flushing add_flushing
remove_one_flushing-add_flushing s g k h =
    update-update s.flushing g _ _ h
      (ap decrement (update_same s.flushing g _) ∙ decrement-increment (s.flushing g) k)
