-- ===== src/Engine/Erase/Lookups.antt =====
-- What lookups find after an erase.
use artisan.Prelude.{ℕ, ◌≤◌, ◌≡◌, sym, ap, ◌∙◌, ◌&&◌, List, if◌then◌else◌, length}
use artisan.Errors.{ok, Returns, Returns-weaken}
use artisan.Engine.Allocator.{Allocator}
use artisan.Engine.Key.{user}
use artisan.Engine.Key.Terminated.{same, full}
use artisan.Engine.Tree.{Node, slot_of, LookupResult, not_found, descend}
use artisan.Engine.Tree.Finds.{IsTree, look, descend-look}
use artisan.Engine.Tree.Keyed.{Keyed}
use artisan.Engine.Insert.{Blob}
use artisan.Engine.Insert.Lookups.{same-full, ok_if}
use artisan.Engine.Erase.{
  EraseCondition, unchanged, subtree_gone, replaced, EraseStep, done, crossing, erase_at_step,
}
use artisan.Engine.Erase.Tombstones.{takes, counted, Never, Erased, erase_at_step-Erased}

-- The tree after an erase of `k` under the condition.
abbrev pub Buried :
    {S : Type 0} → List ℕ → EraseCondition → Node → ℕ → Blob S → EraseStep × Blob S → Type 0
Buried k condition t d b (done (unchanged n) m, b') =
    (IsTree n × (slot_of n ≡ slot_of t))
    × (((path : List ℕ) → Keyed path t → Keyed path n)
        × (((r : LookupResult) × ((descend t (user k) d ≡ ok r)
                × ((m ≡ takes condition r) × (b' ≡ counted m b))))
            × ((k' : List ℕ)
                → d ≤ length (full k')
                → descend n (user k') d
                  ≡ (if m && same k' k then ok not_found else descend t (user k') d))))
Buried k condition t d b (done subtree_gone m, b') = ⊥
Buried k condition t d b (done (replaced n) m, b') = ⊥
Buried k condition t d b (crossing guid depth, b') =
    (descend t (user k) d ≡ ok (LookupResult.crossing guid depth)) × (b' ≡ b)

module _ {S : Type 0} (a : Allocator S) (k : List ℕ) (condition : EraseCondition) where
  to_buried :
      (t : Node) (d : ℕ) (b : Blob S)
      → IsTree t
      → d ≤ length (full k)
      → (r : EraseStep × Blob S) → Erased (full k) condition t d b r
      → Buried k condition t d b r
  to_buried t d b i h (done (unchanged n) m, b') (u, ((f, p), (g, j))) = (
    u,
    (
      j,
      (
        (look t (full k) d, (descend-look t k d i h, (f, p))),
        λ k' h'.
            rw (descend-look n k' d u.0 h', descend-look t k' d i h', g (full k'), same-full k' k)
              (sym (ok_if (m && same k' k) not_found (look t (full k') d))),
      ),
    ),
  )
  to_buried t d b i h (done subtree_gone m, b') u = absurd u
  to_buried t d b i h (done (replaced n) m, b') u = absurd u
  to_buried t d b i h (crossing guid depth, b') (u, f) = (descend-look t k d i h ∙ ap ok u, f)

  -- An erase at a depth within the stored bytes of its key, in a well-formed tree, never fails and
  -- never moves or removes a node: the signals that make a parent collapse do not arise. The key is
  -- buried exactly when its lookup finds it and the condition allows it, one more tombstone is
  -- counted then, and every other key is found as before; or it hands over the child blob at which
  -- the lookup of the key arrives, and changes nothing.
  pub erase_at_step-Buried :
      (t : Node) (depth : ℕ) (b : Blob S)
      → IsTree t
      → depth ≤ length (full k)
      → Returns (Buried k condition t depth b) Never (erase_at_step a (user k) condition t depth b)
  erase_at_step-Buried t depth b i h =
      Returns-weaken (erase_at_step-Erased a k condition t depth b i h) (to_buried t depth b i h)
