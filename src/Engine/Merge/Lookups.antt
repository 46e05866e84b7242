-- ===== src/Engine/Merge/Lookups.antt =====
-- What lookups find before and after a pass.
use artisan.Prelude.{ℕ, ◌≤◌, ◌≡◌, ap, List, length}
use artisan.Errors.{Outcome, ok, Post, good, bad, Post-weaken}
use artisan.Engine.Key.{user}
use artisan.Engine.Key.Terminated.{full}
use artisan.Engine.Tree.{Node}
use artisan.Engine.Tree.Finds.{IsTree}
use artisan.Engine.Migrate.Images.{Image}
use artisan.Engine.Migrate.Copied.{Bytes}
use artisan.Engine.Migrate.Compacts.{Bytes-full}
use artisan.Engine.Forest.{Hit, lookup_multi, AreTrees, Reads-lookup_multi, lookup_multi-Reads}
use artisan.Engine.Merge.{Pass, try_merge_children}
use artisan.Engine.Merge.Kept.{IsSame}
use artisan.Engine.Merge.Passes.{Serves, try_merge_children-IsSame}

-- What a lookup through the blobs finds from `t` it finds from `n`.
abbrev pub Finds : (ℕ → Outcome Image) → Node → Node → Type 0
Finds pin t n =
    (k : List ℕ) (d fuel : ℕ) (h : Hit)
    → Bytes k
    → d ≤ length (full k)
    → lookup_multi pin fuel (user k) t d ≡ ok h
    → (fuel' : ℕ) × (lookup_multi pin fuel' (user k) n d ≡ ok h)

module _ (pin : ℕ → Outcome Image) (a : AreTrees pin) where
  pub same-Finds : (t n : Node) → IsTree t → IsSame pin t n → Finds pin t n
  same-Finds t n i s k d fuel h b l e =
      Reads-lookup_multi pin k h d n a s.tree l
        (s.forth (full k) d h (Bytes-full k b) (lookup_multi-Reads pin fuel k h d t a i l e))

  pub same_found : (t n : Node) → IsTree t → IsSame pin t n → Finds pin n t
  same_found t n i s k d fuel h b l e =
      Reads-lookup_multi pin k h d t a i l
        (s.back (full k) d h (Bytes-full k b) (lookup_multi-Reads pin fuel k h d n a s.tree l e))

pub ok_injective : {A : Type 0} (x y : A) → ok x ≡ ok y → x ≡ y
ok_injective x y e = ap (λ m. elim m [ ok a ↦ a | o ↦ x ]) e

answered : {A : Type 0} {P : A → Type 0} (m : Outcome A) (a : A) → Post P m → m ≡ ok a → P a
answered m a (good {a = a'} h) e = let z : a' ≡ a = ok_injective a' a e in rw z at h
answered m a bad e = absurd (cc e)

Serves-AreTrees : (pin : ℕ → Outcome Image) → Serves pin → AreTrees pin
Serves-AreTrees pin s guid j e = (answered (pin guid) j (s guid) e).0

-- Where the manager answers with well-formed blobs, in which every place of every Node48 is the
-- place of some byte, or with an error, a merge pass over a well-formed tree comes to an end or to an
-- error, never to a panic. A lookup of a key of bytes, from a depth within its stored bytes, that
-- gives an answer in some number of blobs before the pass gives the same answer in some number of
-- blobs after it, and the other way round.
pub try_merge_children-Finds :
    (pin : ℕ → Outcome Image) (seq : ℕ) (i : Image)
    → Serves pin
    → IsTree i.root
    → Post
        (λ (r : Image × Pass). Finds pin i.root r.0.root × Finds pin r.0.root i.root)
        (try_merge_children pin seq i)
try_merge_children-Finds pin seq i s h =
    Post-weaken (try_merge_children-IsSame pin seq s i h) (λ (j, p) (u, e).
      let a = Serves-AreTrees pin s in
      (same-Finds pin a i.root j.root h u, same_found pin a i.root j.root h u))
