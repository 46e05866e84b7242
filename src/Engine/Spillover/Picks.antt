-- ===== src/Engine/Spillover/Picks.antt =====
-- The victim is a subtree below the root, and no BlobNode.
use artisan.Prelude.{
  ℕ, ◌+◌, ◌≡◌, refl, Bool, true, false, Option, none, some, List, [], ◌∷◌, ◌++◌, ◌==◌, ltb, length,
  Bool-cases, inl, inr, arith,
}
use artisan.Errors.{not_yet_implemented, Outcome, ok, err, Post, good, bad, Post-bind, Post-if}
use artisan.Engine.Inner.{Cell, Inner, find_byte}
use artisan.Engine.Inner.Finds.{Ascending, child_of}
use artisan.Engine.Tree.{Node, empty_root, leaf, prefix, inner, blob_node}
use artisan.Engine.Tree.Finds.{IsTree}
use artisan.Engine.Merge.Pairs.{pairs_of-Pairs, find-later}
use artisan.Engine.Spillover.Victims.{
  Edge, below_prefix, at_byte, VictimCandidate, candidate_is_better, better, is_blob, last_is_slash,
  subtree_footprint, spillover_target_child_bytes, visit_children, visit_child_edge,
  collect_victim_candidates, pick_victim_subtree,
}

-- The path leads from a tree to `s`.
pub data Leads (s : Node) : List Edge → Node → Type 0 where
  here : Leads s [] s
  prefixed :
      (es : List Edge) (slot : ℕ) (bytes : List ℕ) (child : Node)
      → Leads s es child
      → Leads s (below_prefix ∷ es) (prefix slot bytes child)
  keyed :
      (es : List Edge) (slot : ℕ) (n : Inner) (children : ℕ → Node) (b c : ℕ)
      → child_of n b ≡ some c
      → Leads s es (children b)
      → Leads s (at_byte b ∷ es) (inner slot n children)

Leads-then :
    (s u : Node) (es fs : List Edge) (t : Node) → Leads s es t → Leads u fs s → Leads u (es ++ fs) t
Leads-then s u es fs t here y = y
Leads-then s u es fs t (prefixed es' slot bytes child x) y =
    prefixed (es' ++ fs) slot bytes child (Leads-then s u es' fs child x y)
Leads-then s u es fs t (keyed es' slot n children b c e x) y =
    keyed (es' ++ fs) slot n children b c e (Leads-then s u es' fs (children b) x y)

pub record IsVictim (t : Node) (c : VictimCandidate) : Type 0 where
  pub leads : Leads c.victim c.path t
  pub local : is_blob c.victim ≡ false

abbrev Found : Node → Option VictimCandidate → Type 0
Found t none = Unit {0}
Found t (some c) = IsVictim t c

better-Found :
    (t : Node) (c : VictimCandidate) (o : Option VictimCandidate)
    → IsVictim t c
    → Found t o
    → Found t (better c o)
better-Found t c none i h = i
better-Found t c (some b) i h = elim (Bool-cases (candidate_is_better c b)) [
  | inl e ↦ rw e i
  | inr e ↦ rw e h
]

visit_child_edge-Found :
    (t child : Node) (path : List Edge) (boundary : Bool) (depth : ℕ) (o : Option VictimCandidate)
    (into : Option VictimCandidate → Outcome (Option VictimCandidate))
    → Leads child path t
    → Found t o
    → ((o' : Option VictimCandidate) → Found t o' → Post (Found t) (into o'))
    → Post (Found t) (visit_child_edge child path boundary depth o into)
unfolding visit_child_edge
visit_child_edge-Found t child path boundary depth o into l h ih =
    Post-if (λ (e : is_blob child ≡ true). good h)
      (λ (e : is_blob child ≡ false).
        let b =
          better-Found t
            (record {
              path = path;
              victim = child;
              footprint = subtree_footprint child;
              path_component = boundary;
              boundary_depth = depth;
            })
            o (record { leads = l; local = e }) h in
        Post-if
          (λ (z : ltb spillover_target_child_bytes (subtree_footprint child).bytes ≡ true). ih _ b)
          (λ (z : ltb spillover_target_child_bytes (subtree_footprint child).bytes ≡ false).
            good b))

module _ (t : Node) where
  visit_children-Found :
      (f : ℕ → Option VictimCandidate → Outcome (Option VictimCandidate)) (cells : List Cell)
      (o : Option VictimCandidate)
      → Ascending cells
      → ((b c : ℕ) (o' : Option VictimCandidate)
          → find_byte b cells ≡ some c
          → Found t o'
          → Post (Found t) (f b o'))
      → Found t o
      → Post (Found t) (visit_children f cells o)
  visit_children-Found f [] o a h y = good y
  visit_children-Found f ((b, c) ∷ cells) o (l, (q, a)) h y =
      let r : (b == b) ≡ true = ground arith in
      Post-bind (h b c o (rw r refl) y) (λ o' y'.
        visit_children-Found f cells o' a
          (λ b' c' o2 e z. h b' c' o2 (rw (find-later b' b c' cells q e) e) z) y')

  collect-Found :
      (cur : Node) (path : List Edge) (depth : ℕ) (o : Option VictimCandidate)
      → IsTree cur
      → Leads cur path t
      → Found t o
      → Post (Found t) (collect_victim_candidates cur path depth o)
  unfolding collect_victim_candidates
  collect-Found (empty_root slot) path depth o i l y = good y
  collect-Found (leaf slot m) path depth o i l y = good y
  collect-Found (prefix slot bytes child) path depth o (p, (q, i)) l y =
      let l' =
        Leads-then (prefix slot bytes child) child path (below_prefix ∷ []) t l
          (prefixed [] slot bytes child here) in
      visit_child_edge-Found t child (path ++ (below_prefix ∷ [])) (last_is_slash bytes)
        (depth + length bytes) o _ l' y
        (λ o' z. collect-Found child (path ++ (below_prefix ∷ [])) (depth + length bytes) o' i l' z)
  collect-Found (inner slot n children) path depth o (p, (m, i)) l y =
      let (cells, (e, (a, (q, f)))) = pairs_of-Pairs n m in
      rw e (
        visit_children-Found _ cells o a
          (λ b c o' z y'.
            let l' =
              Leads-then (inner slot n children) (children b) path (at_byte b ∷ []) t l
                (keyed [] slot n children b c (f b c z) here) in
            visit_child_edge-Found t (children b) (path ++ (at_byte b ∷ [])) (b == 47) (depth + 1)
              o' _ l' y'
              (λ o2 z2.
                collect-Found (children b) (path ++ (at_byte b ∷ [])) (depth + 1) o2
                  (i b c (f b c z)).1 l' z2))
          y)
  collect-Found (blob_node slot bytes guid) path depth o i l y = good y

chosen :
    (t : Node) (o : Option VictimCandidate)
    → Found t o
    → Post
        (IsVictim t)
        (elim o [ none ↦ err (not_yet_implemented "engine::walker::spillover") | some c ↦ ok c ])
chosen t none h = bad
chosen t (some c) h = good h

-- The victim that is picked in a well-formed tree stands where its path leads, and is no BlobNode.
pub pick_victim_subtree-IsVictim : (t : Node) → IsTree t → Post (IsVictim t) (pick_victim_subtree t)
unfolding pick_victim_subtree
pick_victim_subtree-IsVictim t i =
    Post-bind (collect-Found t t [] 0 none i here tt) (λ o h. chosen t o h)
