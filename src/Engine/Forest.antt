-- ===== src/Engine/Forest.antt =====
-- Lookups through the blobs of a tree: the hops of engine/walker/lookup.rs. The manager's `pin` is a
-- parameter. No writer interferes, so that the optimistic reads are valid and the second look of
-- `pin_validated_child` at the parent finds the same crossing; the route cache, which only spares
-- hops, is not consulted.
use artisan.Prelude.{ℕ, zero, suc, ◌≤◌, ◌≡◌, refl, Option, none, some, List, length, arith}
use artisan.Errors.{Outcome, ok, err, panic, out_of_fuel, ◌>>=◌}
use artisan.Engine.Key.{SearchKey, user}
use artisan.Engine.Key.Terminated.{full}
use artisan.Engine.Tree.{Node, LookupResult, not_found, found, crossing, descend}
use artisan.Engine.Tree.Finds.{IsTree, look, descend-look}
use artisan.Engine.Tree.Crossings.{look_inside}
use artisan.Engine.Migrate.Images.{Image}

-- The value and its sequence number, where there is one.
abbrev pub Hit : Type 0
Hit = Option (List ℕ × ℕ)

bind-ok :
    (m : Outcome Image) (f : Image → Outcome Hit) (h : Hit)
    → (m >>= f) ≡ ok h
    → (j : Image) × ((m ≡ ok j) × (f j ≡ ok h))
bind-ok (ok j) f h e = (j, (refl, e))
bind-ok (err x) f h e = absurd (cc e)
bind-ok panic f h e = absurd (cc e)
bind-ok out_of_fuel f h e = absurd (cc e)

module _ (pin : ℕ → Outcome Image) where
  abbrev follow_hit : (ℕ → ℕ → Outcome Hit) → LookupResult → Outcome Hit
  follow_hit next not_found = ok none
  follow_hit next (found value seq) = ok (some (value, seq))
  follow_hit next (crossing guid depth) = next guid depth

  -- `lookup_multi_with` from a root, in at most `fuel` blobs.
  unfoldable pub lookup_multi : ℕ → SearchKey → Node → ℕ → Outcome Hit
  lookup_multi zero k t depth = out_of_fuel
  lookup_multi (suc fuel) k t depth =
      descend t k depth
      >>= follow_hit
          (λ guid child_depth. pin guid >>= λ child. lookup_multi fuel k child.root child_depth)

  -- What the hops after an answer come to.
  pub data Reads (w : List ℕ) : LookupResult → Hit → Type 0 where
    misses : Reads w not_found none
    hits : (value : List ℕ) (seq : ℕ) → Reads w (found value seq) (some (value, seq))
    hops :
        (guid depth : ℕ) (i : Image) (h : Hit)
        → pin guid ≡ ok i
        → Reads w (look i.root w depth) h
        → Reads w (crossing guid depth) h

  -- The blobs hold well-formed trees.
  abbrev pub AreTrees : Type 0
  AreTrees = (guid : ℕ) (i : Image) → pin guid ≡ ok i → IsTree i.root

  pub Reads-crossing :
      (w : List ℕ) (r : LookupResult) (h : Hit) (g d : ℕ)
      → Reads w r h
      → r ≡ crossing g d
      → (j : Image) × ((pin g ≡ ok j) × Reads w (look j.root w d) h)
  Reads-crossing w r h g d misses e = absurd (cc e)
  Reads-crossing w r h g d (hits value seq) e = absurd (cc e)
  Reads-crossing w r h g d (hops guid depth j h' p x) e =
      let z : g ≡ guid = ground (arith, e) in
      let z2 : d ≡ depth = ground (arith, e) in rw (z, z2) (j, (p, x))

  enough :
      (k : List ℕ) (r : LookupResult) (h : Hit)
      → AreTrees
      → Reads (full k) r h
      → (d : ℕ) (t : Node) → IsTree t
      → look t (full k) d ≡ r
      → d ≤ length (full k)
      → (fuel : ℕ) × (lookup_multi fuel (user k) t d ≡ ok h)
  unfolding lookup_multi
  enough k r h a misses d t i e l = (1, rw (descend-look t k d i l, e) refl)
  enough k r h a (hits value seq) d t i e l = (1, rw (descend-look t k d i l, e) refl)
  enough k r h a (hops guid depth j h' p x) d t i e l =
      let (fuel, f) =
        enough k (look j.root (full k) depth) h' a x depth j.root (a guid j p) refl
          (look_inside t (full k) d guid depth e l) in
      (suc fuel, rw (descend-look t k d i l, e, p) f)

  -- Where the hops come to an end, a lookup with enough fuel finds what they come to.
  pub Reads-lookup_multi :
      (k : List ℕ) (h : Hit) (d : ℕ) (t : Node)
      → AreTrees
      → IsTree t
      → d ≤ length (full k)
      → Reads (full k) (look t (full k) d) h
      → (fuel : ℕ) × (lookup_multi fuel (user k) t d ≡ ok h)
  Reads-lookup_multi k h d t a i l x = enough k (look t (full k) d) h a x d t i refl l

  answer-Reads :
      (fuel : ℕ) (k : List ℕ) (h : Hit) (r : LookupResult)
      → AreTrees
      → follow_hit (λ guid depth. pin guid >>= λ j. lookup_multi fuel (user k) j.root depth) r
        ≡ ok h
      → ((guid depth : ℕ) → r ≡ crossing guid depth → depth ≤ length (full k))
      → ((j : Image) (depth : ℕ)
          → IsTree j.root
          → depth ≤ length (full k)
          → lookup_multi fuel (user k) j.root depth ≡ ok h
          → Reads (full k) (look j.root (full k) depth) h)
      → Reads (full k) r h
  answer-Reads fuel k none not_found a e q ih = misses
  answer-Reads fuel k (some x) not_found a e q ih = absurd (cc e)
  answer-Reads fuel k none (found value seq) a e q ih = absurd (cc e)
  answer-Reads fuel k (some (v, s)) (found value seq) a e q ih =
      let z : v ≡ value = ground (arith, e) in
      let z2 : s ≡ seq = ground (arith, e) in rw (z, z2) (hits value seq)
  answer-Reads fuel k h (crossing guid depth) a e q ih =
      let (j, (p, f)) = bind-ok (pin guid) _ h e in
      hops guid depth j h p (ih j depth (a guid j p) (q guid depth refl) f)

  -- What a lookup finds is what the hops come to.
  pub lookup_multi-Reads :
      (fuel : ℕ) (k : List ℕ) (h : Hit) (d : ℕ) (t : Node)
      → AreTrees
      → IsTree t
      → d ≤ length (full k)
      → lookup_multi fuel (user k) t d ≡ ok h
      → Reads (full k) (look t (full k) d) h
  unfolding lookup_multi
  lookup_multi-Reads zero k h d t a i l e = absurd (cc e)
  lookup_multi-Reads (suc fuel) k h d t a i l e =
      answer-Reads fuel k h (look t (full k) d) a (rw (descend-look t k d i l) at e)
        (λ guid depth q. look_inside t (full k) d guid depth q l)
        (λ j depth q r v. lookup_multi-Reads fuel k h depth j.root a q r v)
