-- ===== src/Engine/Spillover/Lookups.antt =====
-- What lookups find after a spillover.
use artisan.Prelude.{
  ℕ, ◌+◌, ◌≤◌, ◌≡◌, refl, sym, ap, ◌∙◌, true, List, [], ◌∷◌, ◌==◌, if◌then◌else◌, length, arith,
  Bool-cases, inl, inr, tests,
}
use artisan.Errors.{Outcome, ok, Post, good, Post-bind, Returns, returned, Returns-bind}
use artisan.Layout.Node.{NodeType}
use artisan.Engine.Allocator.{Allocator, IsRefusal}
use artisan.Engine.Allocator.Framed.{frame_allocator}
use artisan.Engine.Key.{user}
use artisan.Engine.Key.Terminated.{full}
use artisan.Engine.Tree.{Node, empty_root, leaf, prefix, inner, blob_node, LookupResult}
use artisan.Engine.Tree.Finds.{IsTree, look}
use artisan.Engine.Migrate.Images.{Image}
use artisan.Engine.Migrate.Copied.{Bytes}
use artisan.Engine.Migrate.Clones.{IsOwned}
use artisan.Engine.Migrate.Compacts.{Bytes-full, IsMigrated, make_blob_from_node-Moved}
use artisan.Engine.Forest.{
  Hit, Reads, misses, hits, hops, lookup_multi, AreTrees, Reads-lookup_multi, lookup_multi-Reads,
}
use artisan.Engine.Merge.Kept.{IsSame}
use artisan.Engine.Merge.Passes.{Returns-answer, through, into}
use artisan.Engine.Merge.Lookups.{ok_injective}
use artisan.Engine.Spillover.{free_children, free_subtree, spillover_blob}
use artisan.Engine.Spillover.Victims.{Edge, child_bytes}
use artisan.Engine.Spillover.Picks.{Leads, here, prefixed, keyed, pick_victim_subtree-IsVictim}
use artisan.Engine.Spillover.Replaces.{replace_at-Replaced}

-- The manager after `install_new_blob`.
abbrev pub install : (ℕ → Outcome Image) → ℕ → Image → ℕ → Outcome Image
install pin guid j g = if g == guid then ok j else pin g

Leads-IsTree :
    (s : Node) (es : List Edge) (t : Node)
    → Leads s es t
    → IsTree t
    → IsOwned t
    → IsTree s × IsOwned s
Leads-IsTree s es t here i o = (i, o)
Leads-IsTree s es t (prefixed es' slot bytes child l) (p, (q, i)) o = Leads-IsTree s es' child l i o
Leads-IsTree s es t (keyed es' slot n children b c f l) (p, (m, i)) (q, o) =
    Leads-IsTree s es' (children b) l (i b c f).1 (o b c f)

module _ {S : Type 0} (a : Allocator S) where
  free_children-IsRefusal :
      (f : ℕ → S → Outcome S) (bs : List ℕ) (s : S)
      → ((b : ℕ) (s' : S) → Returns (λ (r : S). Unit {0}) IsRefusal (f b s'))
      → Returns (λ (r : S). Unit {0}) IsRefusal (free_children a f bs s)
  free_children-IsRefusal f [] s h = returned tt
  free_children-IsRefusal f (b ∷ bs) s h =
      Returns-bind (h b s) (λ s' u. free_children-IsRefusal f bs s' h)

  free_subtree-IsRefusal :
      (t : Node) (s : S) → Returns (λ (r : S). Unit {0}) IsRefusal (free_subtree a t s)
  unfolding free_subtree
  free_subtree-IsRefusal (empty_root slot) s = a.free_node-refusal slot s
  free_subtree-IsRefusal (leaf slot l) s = a.free_node-refusal slot s
  free_subtree-IsRefusal (prefix slot bytes child) s =
      Returns-bind (free_subtree-IsRefusal child s) (λ s' u. a.free_node-refusal slot s')
  free_subtree-IsRefusal (inner slot n children) s =
      Returns-bind
        (free_children-IsRefusal _ (child_bytes n) s
          (λ b s'. free_subtree-IsRefusal (children b) s'))
        (λ s' u. a.free_node-refusal slot s')
  free_subtree-IsRefusal (blob_node slot bytes guid) s = a.free_node-refusal slot s

-- A BlobNode without bytes whose blob finds what `t` finds.
placeholder-IsSame :
    (pin : ℕ → Outcome Image) (t : Node) (slot guid : ℕ) (j : Image)
    → 1 ≤ slot
    → pin guid ≡ ok j
    → IsMigrated t j
    → IsSame pin t (blob_node slot [] guid)
placeholder-IsSame pin t slot guid j p e m = record {
  tree = (p, omega arith);
  forth = λ w d h b x.
      let z : look j.root w (d + 0) ≡ look t w d =
        ap (look j.root w) (omega arith) ∙ m.looks w d b in
      into pin true w (look t w d) guid (d + 0) j h e z x;
  back = λ w d h b x.
      let z : look j.root w (d + 0) ≡ look t w d =
        ap (look j.root w) (omega arith) ∙ m.looks w d b in
      through pin true w (look t w d) guid (d + 0) j h e z x;
}

module _ (pin : ℕ → Outcome Image) (guid : ℕ) (fresh : (j : Image) → ¬ (pin guid ≡ ok j)) where
  install-pin : (g : ℕ) (i j : Image) → pin g ≡ ok i → install pin guid j g ≡ ok i
  install-pin g i j e = elim (Bool-cases (g == guid)) [
    | inl z ↦ let q : g ≡ guid = grind tests in absurd (fresh i (sym (ap pin q) ∙ e))
    | inr z ↦ rw z e
  ]

  install-Reads :
      (j : Image) (w : List ℕ) (r : LookupResult) (h : Hit)
      → Reads pin w r h
      → Reads (install pin guid j) w r h
  install-Reads j w r h misses = misses
  install-Reads j w r h (hits value seq) = hits value seq
  install-Reads j w r h (hops g d i h' e x) =
      hops g d i h' (install-pin g i j e) (install-Reads j w (look i.root w d) h' x)

  install-AreTrees : (j : Image) → AreTrees pin → IsTree j.root → AreTrees (install pin guid j)
  install-AreTrees j a t g i e = elim (Bool-cases (g == guid)) [
    | inl z ↦ let q : j ≡ i = ok_injective j i (rw z at e) in rw q at t
    | inr z ↦ a g i (rw z at e)
  ]

-- After a spillover: the parent's image and the new one.
abbrev pub Spilled : (ℕ → Outcome Image) → ℕ → Image → Image × Image → Type 0
Spilled pin guid i (j, child) =
    IsTree j.root
    × ((k : List ℕ) (d fuel : ℕ) (h : Hit)
        → Bytes k
        → d ≤ length (full k)
        → lookup_multi pin fuel (user k) i.root d ≡ ok h
        → (fuel' : ℕ) × (lookup_multi (install pin guid child) fuel' (user k) j.root d ≡ ok h))

module _ (pin : ℕ → Outcome Image) (guid : ℕ) (i : Image)
    (fresh : (j : Image) → ¬ (pin guid ≡ ok j)) (a : AreTrees pin) (t : IsTree i.root) where
  same-Spilled :
      (child j : Image)
      → IsTree child.root
      → IsSame (install pin guid child) i.root j.root
      → Spilled pin guid i (j, child)
  same-Spilled child j c s = (
    s.tree,
    λ k d fuel h b l e.
        Reads-lookup_multi (install pin guid child) k h d j.root
          (install-AreTrees pin guid fresh child a c) s.tree l
          (s.forth (full k) d h (Bytes-full k b) (
            install-Reads pin guid fresh child (full k) (look i.root (full k) d) h
              (lookup_multi-Reads pin fuel k h d i.root a t l e))),
  )

  installed : (child : Image) → install pin guid child guid ≡ ok child
  installed child = let r : (guid == guid) ≡ true = ground arith in rw r refl

  -- A spillover of a blob with a well-formed tree, in which every place of every Node48 is the place
  -- of some byte: if the manager's blobs hold well-formed trees and it does not know the new guid,
  -- then the spillover stops with an error, without a panic, or leaves a well-formed tree from which,
  -- once the new blob is installed under the guid, every lookup of a key of bytes, from a depth within
  -- its stored bytes, that gave an answer before gives the same answer.
  pub spillover_blob-Spilled : IsOwned i.root → Post (Spilled pin guid i) (spillover_blob i guid)
  unfolding spillover_blob
  spillover_blob-Spilled o = Post-bind (pick_victim_subtree-IsVictim i.root t) (λ c v.
      let (ti, ow) = Leads-IsTree c.victim c.path i.root v.leads t o in
      Post-bind (Returns-answer (make_blob_from_node-Moved c.victim guid ti ow)) (λ child (m, u).
        Post-bind (Returns-answer (free_subtree-IsRefusal frame_allocator c.victim i.frame))
          (λ f1 u1.
            Post-bind (Returns-answer (frame_allocator.alloc_node-slot NodeType.blob f1))
              (λ (slot, f2) p.
                let pin' = install pin guid child in
                let s = placeholder-IsSame pin' c.victim slot guid child p (installed child) m in
                let (n, (e, (y, z))) =
                  replace_at-Replaced pin' c.victim (blob_node slot [] guid) s c.path i.root v.leads
                    t in
                rw e (good (same-Spilled child (record i { frame = f2; root = n }) m.tree y))))))
