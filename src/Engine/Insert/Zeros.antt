-- ===== src/Engine/Insert/Zeros.antt =====
-- Keys with a zero byte.
use artisan.Prelude.{
  ℕ, zero, suc, ◌≤◌, ◌≡◌, refl, ◌∙◌, true, false, List, [], ◌∷◌, ◌++◌, ltb, ◌==◌, length, drop,
  arith,
}
use artisan.Engine.Allocator.{Allocator}
use artisan.Engine.Key.{user, longest_common_prefix}
use artisan.Engine.Key.Terminated.{same, starts, full, eq_slice-full, common_prefix_with_slice-full}
use artisan.Engine.Tree.{Leaf, leaf}
use artisan.Engine.Insert.{
  InsertCondition, Blob, unsupported, split_leaf, insert_into_leaf, insert_at_step,
}
use artisan.Engine.Insert.Partings.{common_starts}

zero_same : (k r : List ℕ) → same (full (k ++ (0 ∷ r))) (full k) ≡ false
zero_same [] [] = ground arith
zero_same [] (x ∷ r) = ground arith
zero_same (x ∷ k) r = ground (arith, zero_same k r)

zero_starts :
    (k r : List ℕ) (d : ℕ) → starts (drop d (full k)) (drop d (full (k ++ (0 ∷ r)))) ≡ true
zero_starts [] r zero = ground arith
zero_starts [] r (suc zero) = refl
zero_starts [] r (suc (suc d)) = refl
zero_starts (x ∷ k) r zero = ground (arith, zero_starts k r zero)
zero_starts (x ∷ k) r (suc d) = zero_starts k r d

module _ {S : Type 0} (a : Allocator S) (k r value : List ℕ) (seq : ℕ)
    (condition : InsertCondition) where
  -- At the leaf of a key `k`, live or tombstoned, an insert of `k` with a zero byte and any further
  -- bytes behind it is refused with `NotYetImplemented`, whatever the condition: the terminator of
  -- the one is a byte of the other.
  pub insert_at_step_zero :
      (slot depth : ℕ) (l : Leaf) (b : Blob S)
      → l.key ≡ full k
      → depth ≤ length (full k)
      → insert_at_step a (user (k ++ (0 ∷ r))) value seq condition (leaf slot l) depth b
        ≡ unsupported
  unfolding insert_at_step insert_into_leaf split_leaf
  insert_at_step_zero slot depth l b e h =
      let z : same (full (k ++ (0 ∷ r))) l.key ≡ false = rw e (zero_same k r) in
      let long : ltb (length l.key) depth ≡ false = rw e (ground arith) in
      let y = drop depth l.key in
      let x = drop depth (full (k ++ (0 ∷ r))) in
      let c : (longest_common_prefix x y == length y) ≡ true =
        common_starts x y ∙ rw e (zero_starts k r depth) in
      rw
        (
          eq_slice-full (k ++ (0 ∷ r)) l.key,
          z,
          long,
          common_prefix_with_slice-full (k ++ (0 ∷ r)) y depth,
          c,
        )
        refl
